-- ===== src/Config/Validate.antt =====
-- The checks of config.go: `Validate` of the two TLS configurations and of the indexer's,
-- `validateTokenCreation` and `validateCOS`.
use meme_launchpad_backend.Common.{
  ℕ, suc, String, Bool, true, false, not, ◌&&◌, ◌||◌, none, some, List, [], ◌∷◌, length, ltb, ◌==◌,
  nat_eq, string_eq, if◌then◌else◌,
}
use meme_launchpad_backend.Fallible.{Error, msg, wrap, Result, ok, err, ◌>>◌, guard}
use meme_launchpad_backend.Go.Strconv.{pos, parse_int}
use meme_launchpad_backend.Go.Hex.{decode_hex}
use meme_launchpad_backend.Go.Strings.{◌<>◌, trim_0x}
use meme_launchpad_backend.Config.{
  GrpcTlsConfig, GrpcClientTlsConfig, TokenCreationConfig, IndexerConfig, CosConfig, Packages,
  is_set,
}

-- `configured` after a loop that counts the values that are set
unfoldable pub configured : List Bool → ℕ
configured [] = 0
configured (b ∷ bs) = let rest = configured bs in if b then suc rest else rest

abbrev pub set_together : Error
set_together =
    msg
      "GRPC_TLS_CERT_FILE, GRPC_TLS_KEY_FILE, GRPC_TLS_CLIENT_CA_FILE, and GRPC_ALLOWED_CLIENT_IDS must be set together"

unfoldable pub validate_server : GrpcTlsConfig → Result (Unit {0})
unfolding configured
validate_server c =
    let n = configured (
      is_set c.cert_file
      ∷ is_set c.key_file
      ∷ is_set c.client_ca_file
      ∷ ltb 0 (length c.allowed_client_ids)
      ∷ []) in
    if n == 0 then ok tt else if not (n == 4) then err set_together else ok tt

unfoldable pub validate_client : String → GrpcClientTlsConfig → Result (Unit {0})
unfolding configured
validate_client prefix c =
    let n =
      configured
        (is_set c.ca_file ∷ is_set c.cert_file ∷ is_set c.key_file ∷ is_set c.server_name ∷ []) in
    if not (n == 0) && not (n == 4)
    then err (
        msg (
          prefix <> "_CA_FILE, " <> prefix <> "_CERT_FILE, " <> prefix <> "_KEY_FILE, and "
          <> prefix <> "_SERVER_NAME must be set together"))
    else ok tt

-- `ParseInt` succeeds with at least 1
unfoldable pub is_positive_integer : String → Bool
unfolding parse_int
is_positive_integer s = elim (parse_int s) [ some (pos n) ↦ ltb 0 n | _ ↦ false ]

unfoldable pub is_bytecode : String → Bool
unfolding decode_hex trim_0x
is_bytecode s = elim (decode_hex (trim_0x s)) [ some (_ ∷ _) ↦ true | _ ↦ false ]

module _ (lib : Packages) where
  -- the checks of the values when all five are set
  unfoldable pub validate_values : TokenCreationConfig → Result (Unit {0})
  unfolding is_positive_integer is_bytecode trim_0x
  validate_values v = do
    guard (is_positive_integer v.chain_id)
        (msg "TOKEN_CREATION_CHAIN_ID must be a positive integer")
    guard (lib.is_hex_address v.core_contract && lib.is_hex_address v.factory_contract)
        (msg "TOKEN_CREATION_CORE and TOKEN_CREATION_FACTORY must be Ethereum addresses")
    elim (lib.hex_to_ecdsa_error (trim_0x v.signer_private_key)) [
      | none ↦ ok tt
      | some text ↦ err (wrap "TOKEN_CREATION_SIGNER_KEY is invalid" (msg text))
    ]
    guard (is_bytecode v.token_bytecode)
        (msg "TOKEN_CREATION_BYTECODE must be non-empty hexadecimal bytecode")

  unfoldable pub validate_token_creation : TokenCreationConfig → Result (Unit {0})
  unfolding configured validate_values
  validate_token_creation v =
      let n = configured (
        is_set v.chain_id
        ∷ is_set v.core_contract
        ∷ is_set v.factory_contract
        ∷ is_set v.signer_private_key
        ∷ is_set v.token_bytecode
        ∷ []) in
      if n == 0
      then ok tt
      else if not (n == 5)
      then err (
          msg
            "TOKEN_CREATION_CHAIN_ID, TOKEN_CREATION_CORE, TOKEN_CREATION_FACTORY, TOKEN_CREATION_SIGNER_KEY, and TOKEN_CREATION_BYTECODE must be set together")
      else validate_values v

  unfoldable pub validate_indexer : IndexerConfig → Result (Unit {0})
  validate_indexer c =
      if c.rpc_url == "" || (ltb c.chain_id 1 || not (lib.is_hex_address c.core_contract))
      then err
          (msg "INDEXER_RPC_URL, INDEXER_CHAIN_ID, and INDEXER_CORE are required for the indexer")
      else if ltb c.block_batch_size 1 || ltb c.poll_interval 1
      then err (msg "indexer batch size and poll interval must be positive")
      else ok tt

unfoldable pub validate_cos : CosConfig → Result (Unit {0})
unfolding configured
validate_cos v =
    let n = configured (
      is_set v.secret_id
      ∷ is_set v.secret_key
      ∷ is_set v.bucket
      ∷ is_set v.region
      ∷ is_set v.domain
      ∷ []) in
    if n == 0
    then ok tt
    else if is_set v.secret_id && (is_set v.secret_key && (is_set v.bucket && is_set v.region))
    then ok tt
    else err (msg "COS_SECRET_ID, COS_SECRET_KEY, COS_BUCKET, and COS_REGION must be set together")
