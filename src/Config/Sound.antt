-- ===== src/Config/Sound.antt =====
-- What a configuration that has been loaded satisfies.
use meme_launchpad_backend.Common.{
  ℕ, ◌≤◌, ◌<◌, ◌^◌, ◌≡◌, ◌⊎◌, inl, inr, String, Bool, true, false, none, [], ◌∷◌, length, arith,
  Bool-cases, ltb, ◌==◌, string_eq, nat_eq,
}
use meme_launchpad_backend.Fallible.{ok, Yields, ◌⟫◌, ok-Yields}
use meme_launchpad_backend.Go.Strconv.{parse_uint-lt}
use meme_launchpad_backend.Go.Strings.{trim_0x}
use meme_launchpad_backend.Config.{
  GrpcTlsConfig, GrpcClientTlsConfig, TokenCreationConfig, IndexerConfig, CosConfig, Config,
  Packages, is_set, server_enabled, client_enabled,
}
use meme_launchpad_backend.Config.Validate.{
  configured, validate_server, validate_client, is_positive_integer, is_bytecode, validate_values,
  validate_token_creation, validate_cos,
}
use meme_launchpad_backend.Config.Load.{
  LookupEnv, non_empty, or_else, load_port, load_int, load_uint, load_indexer, load_set, load,
  server_tls, client_tls, service, auth, token_creation, cos,
}

-- Either nothing is set or everything is.
pub record IsServerTls (c : GrpcTlsConfig) : Type 0 where
  pub cert : server_enabled c ≡ is_set c.cert_file
  pub key : is_set c.key_file ≡ server_enabled c
  pub ca : is_set c.client_ca_file ≡ server_enabled c
  pub identities : ltb 0 (length c.allowed_client_ids) ≡ server_enabled c

pub record IsClientTls (c : GrpcClientTlsConfig) : Type 0 where
  pub ca : is_set c.ca_file ≡ client_enabled c
  pub cert : is_set c.cert_file ≡ client_enabled c
  pub key : is_set c.key_file ≡ client_enabled c
  pub name : is_set c.server_name ≡ client_enabled c

-- Five values that `createToken` can be signed with.
pub record CanSign (lib : Packages) (c : TokenCreationConfig) : Type 0 where
  pub chain : is_positive_integer c.chain_id ≡ true
  pub core : lib.is_hex_address c.core_contract ≡ true
  pub factory : lib.is_hex_address c.factory_contract ≡ true
  pub key : lib.hex_to_ecdsa_error (trim_0x c.signer_private_key) ≡ none
  pub bytecode : is_bytecode c.token_bytecode ≡ true

-- All five values are empty.
abbrev pub AreUnset : TokenCreationConfig → Type 0
AreUnset c =
    (is_set c.chain_id ≡ false)
    × (is_set c.core_contract ≡ false)
    × (is_set c.factory_contract ≡ false)
    × (is_set c.signer_private_key ≡ false)
    × (is_set c.token_bytecode ≡ false)

pub record IsCos (c : CosConfig) : Type 0 where
  pub key : is_set c.secret_key ≡ is_set c.secret_id
  pub bucket : is_set c.bucket ≡ is_set c.secret_id
  pub region : is_set c.region ≡ is_set c.secret_id
  pub domain : is_set c.secret_id ≡ false → is_set c.domain ≡ false

pub record IsIndexer (c : IndexerConfig) : Type 0 where
  pub start : c.start_block < 2 ^ 64
  pub size : (1 ≤ c.block_batch_size) × (c.block_batch_size < 2 ^ 64)
  pub interval : 1 ≤ c.poll_interval

abbrev pub IsPort : ℕ → Type 0
IsPort n = (1 ≤ n) × (n ≤ 65535)

validate_server-IsServerTls : (c : GrpcTlsConfig) → Yields (λ _. IsServerTls c) (validate_server c)
unfolding validate_server configured server_enabled
validate_server-IsServerTls c u h = ground arith

validate_client-IsClientTls :
    (prefix : String) (c : GrpcClientTlsConfig)
    → Yields (λ _. IsClientTls c) (validate_client prefix c)
unfolding validate_client configured client_enabled
validate_client-IsClientTls prefix c u h = ground arith

load_port-bounds :
    (env : LookupEnv) (name : String) (default : ℕ)
    → IsPort default
    → Yields IsPort (load_port env name default)
unfolding load_port
load_port-bounds env name default d port h = ground arith

load_int-least :
    (env : LookupEnv) (name text : String) (least default n : ℕ)
    → load_int env name text least default ≡ ok n
    → (n ≡ default) ⊎ (least ≤ n)
unfolding load_int
load_int-least env name text least default n h = ground arith

load_uint-bounds :
    (env : LookupEnv) (name text : String) (least default n : ℕ)
    → load_uint env name text least default ≡ ok n
    → (n ≡ default) ⊎ ((least ≤ n) × (n < 2 ^ 64))
unfolding load_uint
load_uint-bounds env name text least default n h = grind (arith, parse_uint-lt)

none_configured :
    {a b c d e : Bool}
    → (configured (a ∷ b ∷ c ∷ d ∷ e ∷ []) == 0) ≡ true
    → (a ≡ false) × (b ≡ false) × (c ≡ false) × (d ≡ false) × (e ≡ false)
unfolding configured
none_configured h = ground arith

validate_cos-IsCos : (c : CosConfig) → Yields (λ _. IsCos c) (validate_cos c)
unfolding validate_cos configured
validate_cos-IsCos c u h = ground arith

module _ (lib : Packages) where
  validate_values-CanSign :
      (c : TokenCreationConfig) → validate_values lib c ≡ ok tt → CanSign lib c
  unfolding validate_values
  validate_values-CanSign c h = ground arith

  validate_token_creation-cases :
      (c : TokenCreationConfig)
      → Yields (λ _. AreUnset c ⊎ CanSign lib c) (validate_token_creation lib c)
  unfolding validate_token_creation
  validate_token_creation-cases c u h =
      let n = configured (
        is_set c.chain_id
        ∷ is_set c.core_contract
        ∷ is_set c.factory_contract
        ∷ is_set c.signer_private_key
        ∷ is_set c.token_bytecode
        ∷ []) in
      elim (Bool-cases (n == 0)) [
        | inl empty ↦ inl (none_configured empty)
        | inr some_set ↦ elim (Bool-cases (n == 5)) [
          | inl five ↦ inr (
              validate_values-CanSign c (
                rw (five, validate_token_creation) at
                  (rw (some_set, validate_token_creation) at h)))
          | inr few ↦
              let k =
                rw (few, validate_token_creation) at
                  (rw (some_set, validate_token_creation) at h) in
              absurd cc
        ]
      ]

load_indexer-IsIndexer : (env : LookupEnv) → Yields IsIndexer (load_indexer env)
unfolding load_indexer
load_indexer-IsIndexer env =
    load_int-least env "INDEXER_CHAIN_ID" " must be a positive integer" 1 0 ⟫ λ chain c.
    load_uint-bounds env "INDEXER_START_BLOCK" " must be a non-negative integer" 0 0 ⟫ λ block b.
    load_uint-bounds env "INDEXER_BLOCK_BATCH_SIZE" " must be positive" 1 500 ⟫ λ size s.
    load_int-least env "INDEXER_POLL_INTERVAL_SECONDS" " must be positive" 1 5 ⟫ λ seconds t.
    ok-Yields IsIndexer (record { start = omega arith; size = omega arith; interval = omega arith })

module _ (lib : Packages) where
  pub record IsSound (c : Config) : Type 0 where
    pub http_port : IsPort c.http.port
    pub token_port : IsPort c.token_service.port
    pub creation_port : IsPort c.token_creation_service.port
    pub upload_port : IsPort c.upload_service.port
    pub server : IsServerTls c.grpc.tls
    pub token_client : IsClientTls c.token_service.tls
    pub creation_client : IsClientTls c.token_creation_service.tls
    pub upload_client : IsClientTls c.upload_service.tls
    pub chain : 1 ≤ c.auth.siwe.chain_id
    pub creation : AreUnset c.token_creation ⊎ CanSign lib c.token_creation
    pub storage : IsCos c.cos
    pub indexing : IsIndexer c.indexer

  load_set-IsSound :
      (env : LookupEnv) (password : String) → Yields IsSound (load_set env lib password)
  unfolding load_set service auth
  load_set-IsSound env password =
      load_port-bounds env "HTTP_PORT" 38081 (omega arith) ⟫ λ http_port http.
      load_port-bounds env "TOKEN_SERVICE_GRPC_PORT" 39100 (omega arith) ⟫ λ token_port token.
      load_port-bounds env "TOKEN_CREATION_SERVICE_GRPC_PORT" 39200 (omega arith)
      ⟫ λ creation_port creation.
          load_port-bounds env "UPLOAD_SERVICE_GRPC_PORT" 39300 (omega arith)
          ⟫ λ upload_port upload. validate_server-IsServerTls (server_tls env) ⟫ λ _ server.
              validate_client-IsClientTls "TOKEN_SERVICE_GRPC" (client_tls env "TOKEN_SERVICE_GRPC")
              ⟫ λ _ token_client.
                  validate_client-IsClientTls "TOKEN_CREATION_SERVICE_GRPC"
                    (client_tls env "TOKEN_CREATION_SERVICE_GRPC")
                  ⟫ λ _ creation_client.
                      validate_client-IsClientTls "UPLOAD_SERVICE_GRPC"
                        (client_tls env "UPLOAD_SERVICE_GRPC")
                      ⟫ λ _ upload_client.
                          load_int-least env "REDIS_DB" " must be a non-negative integer" 0 0
                          ⟫ λ db _.
                              load_int-least env "SIWE_CHAIN_ID" " must be a positive integer" 1 97
                              ⟫ λ chain_id chain.
                                  validate_token_creation-cases lib (token_creation env)
                                  ⟫ λ _ signs. validate_cos-IsCos (cos env) ⟫ λ _ storage.
                                      load_indexer-IsIndexer env ⟫ λ indexer indexing.
                                      ok-Yields IsSound (record {
                                        http_port = http;
                                        token_port = token;
                                        creation_port = creation;
                                        upload_port = upload;
                                        server = server;
                                        token_client = token_client;
                                        creation_client = creation_client;
                                        upload_client = upload_client;
                                        chain = omega arith;
                                        creation = signs;
                                        storage = storage;
                                        indexing = indexing;
                                      })

  -- A configuration that `Load` returns has every port from 1 to 65535, a SIWE chain id, batch size
  -- and poll interval of at least 1, a start block and batch size below 2^64, and each group of
  -- settings that belong together either set or not set as a whole: the server's TLS with at least
  -- one allowed client, each client's TLS, the object storage, and token creation, whose five values
  -- are then a positive chain id, two addresses, a private key and bytecode.
  pub load-IsSound : (lookup : LookupEnv) (c : Config) → load lib lookup ≡ ok c → IsSound c
  unfolding load
  load-IsSound lookup c h =
      load_set-IsSound (non_empty lookup) (or_else "" (lookup "REDIS_PASSWORD")) c h
