-- ===== src/GrpcSecurity/Plaintext.antt =====
-- No connection falls back to plaintext when anything of its TLS is configured.
use meme_launchpad_backend.Common.{
  ℕ, String, ◌≡◌, ◌≢◌, refl, ◌∙◌, Bool, true, false, none, some, List, [], ◌∷◌, length, ltb, arith,
  Bool-cases, inl, inr, ◌==◌, nat_eq,
}
use meme_launchpad_backend.Fallible.{msg, ok, guard, wrapped, Yields, any, ◌⟫◌, ok-Yields}
use meme_launchpad_backend.Config.{
  GrpcTlsConfig, GrpcClientTlsConfig, Config, is_set, server_enabled, client_enabled,
}
use meme_launchpad_backend.Config as Cfg
use meme_launchpad_backend.Config.Validate.{configured}
use meme_launchpad_backend.Config.Load.{LookupEnv, load}
use meme_launchpad_backend.Config.Sound.{load-IsSound}
use meme_launchpad_backend.GrpcSecurity.{
  Packages, tls, insecure, certificate_pool, tls_credentials, server_security, server_options,
  client_credentials,
}

none_set :
    {a b c d : Bool}
    → (configured (a ∷ b ∷ c ∷ d ∷ []) == 0) ≡ true
    → (a ≡ false) × (b ≡ false) × (c ≡ false) × (d ≡ false)
unfolding configured
none_set h = ground arith

no_identity : (ids : List String) → ltb 0 (length ids) ≡ false → ids ≡ []
no_identity [] h = refl
no_identity (i ∷ ids) h = ground arith

tls_secure :
    {KeyPair Pool : Type 0} (pair : KeyPair) (pool : Pool) (name : String)
    → tls pair pool name ≢ insecure
tls_secure pair pool name same = cc

some_options : {A : Type 0} (a : A) → some a ≢ none
some_options a same = cc

module _ {KeyPair Pool : Type 0} (lib : Packages KeyPair Pool) where
  tls_credentials-secure :
      (cfg : GrpcClientTlsConfig) (n : ℕ) → Yields (λ x. x ≢ insecure) (tls_credentials lib cfg n)
  unfolding tls_credentials
  tls_credentials-secure cfg n =
      any (
        guard (n == 4) (
          msg
            "INTERNAL_GRPC_CA_FILE, INTERNAL_GRPC_CERT_FILE, INTERNAL_GRPC_KEY_FILE, and INTERNAL_GRPC_SERVER_NAME must be set together"))
      ⟫ λ _ _.
          any (
            wrapped "load internal gRPC client certificate"
              (lib.load_key_pair cfg.cert_file cfg.key_file))
          ⟫ λ pair _.
              any (wrapped "load internal gRPC server CA" (certificate_pool lib cfg.ca_file))
              ⟫ λ pool _. ok-Yields (λ x. x ≢ insecure) (tls_secure pair pool cfg.server_name)

  server_security-some : (cfg : GrpcTlsConfig) → Yields (λ x. x ≢ none) (server_security lib cfg)
  unfolding server_security
  server_security-some cfg =
      any (wrapped "load gRPC server certificate" (lib.load_key_pair cfg.cert_file cfg.key_file))
      ⟫ λ pair _.
          any (wrapped "load gRPC client CA" (certificate_pool lib cfg.client_ca_file)) ⟫ λ pool _.
          ok-Yields (λ x. x ≢ none)
            (some_options (record {
              certificate = pair;
              client_cas = pool;
              unary_identities = cfg.allowed_client_ids;
              stream_identities = cfg.allowed_client_ids;
            }))

  -- The client's credentials are those of plaintext only if none of its four TLS settings is set.
  pub client_credentials-plaintext :
      (cfg : GrpcClientTlsConfig)
      → client_credentials lib cfg ≡ ok insecure
      → client_enabled cfg ≡ false
  unfolding client_credentials client_enabled
  client_credentials-plaintext cfg h =
      let n = configured (
        is_set cfg.ca_file
        ∷ is_set cfg.cert_file
        ∷ is_set cfg.key_file
        ∷ is_set cfg.server_name
        ∷ []) in
      elim (Bool-cases (n == 0)) [
        | inl nothing ↦ unset (none_set {a = is_set cfg.ca_file} {b = is_set cfg.cert_file} nothing)
        | inr some_set ↦
            let k = rw (some_set, client_credentials) at h in
            absurd (tls_credentials-secure cfg n insecure k refl)
      ]
    where
      unset :
          (is_set cfg.ca_file ≡ false)
            × (is_set cfg.cert_file ≡ false)
            × (is_set cfg.key_file ≡ false)
            × (is_set cfg.server_name ≡ false)
          → client_enabled cfg ≡ false
      unset (ca, cert, key, name) = rw (ca, cert, key, name) refl

  server_options-plaintext :
      (cfg : GrpcTlsConfig) → server_options lib cfg ≡ ok none → server_enabled cfg ≡ false
  unfolding server_options
  server_options-plaintext cfg h = elim (Bool-cases (server_enabled cfg)) [
    | inr off ↦ off
    | inl on ↦ absurd (server_security-some cfg none (rw (on, server_options) at h) refl)
  ]

  -- A server whose configuration was loaded runs without TLS and interceptors only if none of its four
  -- settings is set.
  pub load-server_options :
      (packages : Cfg.Packages) (lookup : LookupEnv) (c : Config)
      → load packages lookup ≡ ok c
      → server_options lib c.grpc.tls ≡ ok none
      → (is_set c.grpc.tls.cert_file ≡ false)
        × (is_set c.grpc.tls.key_file ≡ false)
        × (is_set c.grpc.tls.client_ca_file ≡ false)
        × (c.grpc.tls.allowed_client_ids ≡ [])
  unfolding server_enabled
  load-server_options packages lookup c h plain =
      let off = server_options-plaintext c.grpc.tls plain in
      let sound = (load-IsSound packages lookup c h).server in
      (
        off,
        sound.key ∙ off,
        sound.ca ∙ off,
        no_identity c.grpc.tls.allowed_client_ids (sound.identities ∙ off),
      )
