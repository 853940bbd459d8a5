-- ===== src/GrpcSecurity.antt =====
-- mTLS of the rebuild's internal services: app-rebuild/internal/grpcsecurity/security.go. Files, key
-- pairs and certificate pools are parameters; a certificate is its URIs and common name.
pub mod Admits
pub mod Plaintext
pub mod Dial
use meme_launchpad_backend.Common.{
  ℕ, String, Bool, not, ◌&&◌, Option, none, some, List, [], ◌∷◌, ◌++◌, ◌==◌, nat_eq, string_eq,
  if◌then◌else◌,
}
use meme_launchpad_backend.Fallible.{msg, Result, ok, err, wrapped, ◌>>=◌, ◌>>◌, guard}
use meme_launchpad_backend.Postgres.Table.{Table, lookup, upsert}
use meme_launchpad_backend.Go.Strings.{◌<>◌}
use meme_launchpad_backend.Config.{
  GrpcTlsConfig, GrpcClientTlsConfig, is_set, server_enabled, client_enabled,
}
use meme_launchpad_backend.Config.Validate.{configured}

-- `tls.LoadX509KeyPair`, `os.ReadFile`, and `AppendCertsFromPEM`, which is `none` when it adds none
pub record Packages (KeyPair Pool : Type 0) : Type 0 where
  pub load_key_pair : String → String → Result KeyPair
  pub read_file : String → Result (List ℕ)
  pub certs_from_pem : List ℕ → Option Pool

pub record Certificate : Type 0 where
  pub uris : List String
  pub common_name : String

-- the dynamic types of `peer.AuthInfo`: `credentials.TLSInfo`, a pointer to one, and others
pub data AuthInfo : Type 0 where
  tls_info : List Certificate → AuthInfo
  tls_info_pointer : List Certificate → AuthInfo
  other_info : AuthInfo

pub record Peer : Type 0 where
  pub auth_info : Option AuthInfo

-- the peer of a context, if it has one
abbrev pub Context : Type 0
Context = Option Peer

-- the status codes of the refusals, with their messages
pub data Status : Type 0 where
  unauthenticated : String → Status
  permission_denied : String → Status

-- What a call returns: a refusal, or what the handler returns.
pub data Reply (A : Type 0) : Type 0 where
  refused : Status → Reply A
  handled : A → Reply A

abbrev first_certificate : List Certificate → Option Certificate
first_certificate [] = none
first_certificate (c ∷ _) = some c

unfoldable pub client_certificate : Context → Option Certificate
client_certificate none = none
client_certificate (some p) = elim p.auth_info [
  | none ↦ none
  | some (tls_info certificates) ↦ first_certificate certificates
  | some (tls_info_pointer certificates) ↦ first_certificate certificates
  | some other_info ↦ none
]

unfoldable pub certificate_identities : Certificate → List String
certificate_identities c = if is_set c.common_name then c.uris ++ (c.common_name ∷ []) else c.uris

abbrev pub IdentitySet : Type 0
IdentitySet = Table String (Unit {0})

unfoldable pub identity_set : List String → IdentitySet → IdentitySet
unfolding upsert
identity_set [] allowed = allowed
identity_set (identity ∷ rest) allowed = identity_set rest (upsert identity tt (λ u. u) allowed)

unfoldable pub any_allowed : IdentitySet → List String → Bool
unfolding lookup
any_allowed allowed [] = Bool.false
any_allowed allowed (identity ∷ rest) =
    let later = any_allowed allowed rest in
    elim (lookup identity allowed) [ some _ ↦ Bool.true | none ↦ later ]

-- `none` for a nil error
unfoldable pub authorize_client : Context → IdentitySet → Option Status
unfolding client_certificate certificate_identities any_allowed
authorize_client ctx allowed = elim (client_certificate ctx) [
  | none ↦ some (unauthenticated "verified client certificate is required")
  | some certificate ↦
      if any_allowed allowed (certificate_identities certificate)
      then none
      else some (permission_denied "client service identity is not allowed")
]

module _ {S A : Type 0} where
  -- The interceptor around a handler, which changes the state `S` of the server.
  unfoldable pub require_client_identity :
      {Request : Type 0} → List String → Context → (Request → S → A × S) → Request → S → Reply A × S
  unfolding authorize_client identity_set
  require_client_identity allowed ctx handler request s =
      elim (authorize_client ctx (identity_set allowed [])) [
        | some status ↦ (refused status, s)
        | none ↦ let (a, s') = handler request s in (handled a, s')
      ]

  unfoldable pub require_streaming_client_identity :
      List String → Context → (S → A × S) → S → Reply A × S
  unfolding authorize_client identity_set
  require_streaming_client_identity allowed ctx handler s =
      elim (authorize_client ctx (identity_set allowed [])) [
        | some status ↦ (refused status, s)
        | none ↦ let (a, s') = handler s in (handled a, s')
      ]

-- Credentials of a server that requires and verifies client certificates of TLS 1.2 or later, and the
-- identities that its two interceptors admit.
pub record ServerSecurity (KeyPair Pool : Type 0) : Type 0 where
  pub certificate : KeyPair
  pub client_cas : Pool
  pub unary_identities : List String
  pub stream_identities : List String

pub data Credentials (KeyPair Pool : Type 0) : Type 0 where
  insecure : Credentials KeyPair Pool
  tls : KeyPair → Pool → String → Credentials KeyPair Pool

module _ {KeyPair Pool : Type 0} (lib : Packages KeyPair Pool) where
  unfoldable pub certificate_pool : String → Result Pool
  certificate_pool path = do
    bytes ← lib.read_file path
    elim (lib.certs_from_pem bytes) [
      | none ↦ err (msg ("no certificates found in " <> path))
      | some pool ↦ ok pool
    ]

  -- the options of a server with TLS
  unfoldable pub server_security : GrpcTlsConfig → Result (Option (ServerSecurity KeyPair Pool))
  unfolding certificate_pool
  server_security cfg = do
    certificate ←
        wrapped "load gRPC server certificate" (lib.load_key_pair cfg.cert_file cfg.key_file)
    client_cas ← wrapped "load gRPC client CA" (certificate_pool cfg.client_ca_file)
    ok (
        some (record {
          certificate = certificate;
          client_cas = client_cas;
          unary_identities = cfg.allowed_client_ids;
          stream_identities = cfg.allowed_client_ids;
        }))

  -- `none` for no options, the plaintext server
  unfoldable pub server_options : GrpcTlsConfig → Result (Option (ServerSecurity KeyPair Pool))
  unfolding server_enabled server_security
  server_options cfg = if not (server_enabled cfg) then ok none else server_security cfg

  -- the credentials when some setting is set, of which there are `n`
  unfoldable pub tls_credentials : GrpcClientTlsConfig → ℕ → Result (Credentials KeyPair Pool)
  unfolding certificate_pool
  tls_credentials cfg n = do
    guard (n == 4) (
        msg
          "INTERNAL_GRPC_CA_FILE, INTERNAL_GRPC_CERT_FILE, INTERNAL_GRPC_KEY_FILE, and INTERNAL_GRPC_SERVER_NAME must be set together")
    certificate ←
        wrapped "load internal gRPC client certificate"
          (lib.load_key_pair cfg.cert_file cfg.key_file)
    root_cas ← wrapped "load internal gRPC server CA" (certificate_pool cfg.ca_file)
    ok (tls certificate root_cas cfg.server_name)

  -- `ClientTLSConfig` has the fields of the configuration's type.
  unfoldable pub client_credentials : GrpcClientTlsConfig → Result (Credentials KeyPair Pool)
  unfolding configured tls_credentials
  client_credentials cfg =
      let n = configured (
        is_set cfg.ca_file
        ∷ is_set cfg.cert_file
        ∷ is_set cfg.key_file
        ∷ is_set cfg.server_name
        ∷ []) in
      if n == 0 then ok insecure else tls_credentials cfg n
