-- ===== src/GrpcSecurity/Dial.antt =====
-- How a process of the rebuild connects to the other services: `IsLoopbackTarget` of
-- app-rebuild/internal/grpcsecurity/security.go, and connectTokenService, connectTokenCreationService and
-- connectUploadService of app-rebuild/internal/app/app.go with CheckHealth of internal/grpcclient.
use meme_launchpad_backend.Common.{
  ◌≡◌, ◌≢◌, ◌⊎◌, ◌∙◌, ap, eq_iff, String, Bool, true, false, ◌||◌, Option, none, some, Bool-cases,
  inl, inr, ◌==◌, string_eq, if◌then◌else◌,
}
use meme_launchpad_backend.Fallible.{
  msg, wrap, Result, ok, err, guard, wrapped, ◌>>=◌, ◌>>◌, Yields, self, wrapped-Yields,
  Result-cases, guard-Yields, ◌⟫◌, ok-Yields,
}
use meme_launchpad_backend.Go.Strings.{◌<>◌}
use meme_launchpad_backend.Config.{Config, ServiceConfig, client_enabled, service_address}
use meme_launchpad_backend.GrpcSecurity.{Packages, Credentials, insecure, client_credentials}
use meme_launchpad_backend.GrpcSecurity.Plaintext.{client_credentials-plaintext}

-- of the packages net and strings
pub record Net (Ip : Type 0) : Type 0 where
  pub split_host_port : String → Result (String × String)
  pub equal_fold : String → String → Bool
  pub parse_ip : String → Option Ip
  pub is_loopback : Ip → Bool

-- `grpc.DialContext`, and the status of a health check
pub record Grpc (KeyPair Pool Connection : Type 0) : Type 0 where
  pub dial_context : String → Credentials KeyPair Pool → Result Connection
  pub check : Connection → String → Result String

-- the names of a service in errors and in its health check
pub record ServiceNames : Type 0 where
  pub label : String
  pub title : String
  pub health_name : String

abbrev pub token_service : ServiceNames
token_service = record {
  label = "token-service";
  title = "token service";
  health_name = "meme-token-service";
}

abbrev pub token_creation_service : ServiceNames
token_creation_service = record {
  label = "token-creation-service";
  title = "token-creation service";
  health_name = "meme-token-creation-service";
}

abbrev pub upload_service : ServiceNames
upload_service = record {
  label = "upload-service";
  title = "upload service";
  health_name = "meme-upload-service";
}

module _ {Ip : Type 0} (net : Net Ip) where
  unfoldable pub is_loopback_target : String → Bool
  is_loopback_target target = elim (net.split_host_port target) [
    | err _ ↦ false
    | ok (host, _) ↦
        if net.equal_fold host "localhost"
        then true
        else elim (net.parse_ip host) [ none ↦ false | some ip ↦ net.is_loopback ip ]
  ]

  module _ {KeyPair Pool Connection : Type 0} (lib : Packages KeyPair Pool)
      (grpc : Grpc KeyPair Pool Connection) where
    -- the status SERVING by its name
    unfoldable pub check_health : Connection → String → Result (Unit {0})
    check_health connection service = elim (grpc.check connection service) [
      | err e ↦ err (wrap "check internal gRPC health" e)
      | ok status ↦
          if status == "SERVING" then ok tt else err (msg ("internal gRPC service is " <> status))
    ]

    unfoldable pub connect : ServiceNames → ServiceConfig → Result Connection
    unfolding client_enabled is_loopback_target client_credentials check_health service_address
    connect service cfg = do
      let target = service_address cfg
      guard (client_enabled cfg.tls || is_loopback_target target)
          (msg (service.label <> " mutual TLS is required when " <> target <> " is not loopback"))
      credentials ←
          wrapped ("configure " <> service.label <> " gRPC client") (client_credentials lib cfg.tls)
      connection ←
          wrapped ("connect to " <> service.title <> " at " <> target)
            (grpc.dial_context target credentials)
      wrapped ("verify " <> service.title <> " at " <> target)
          (check_health connection service.health_name)
      ok connection

    -- what `New` connects to, in its order
    unfoldable pub connect_services : Config → Result (Connection × Connection × Connection)
    unfolding connect
    connect_services cfg = do
      tokens ← connect token_service cfg.token_service
      creations ← connect token_creation_service cfg.token_creation_service
      uploads ← connect upload_service cfg.upload_service
      ok (tokens, creations, uploads)

    check_health-Serving :
        (c : Connection) (name : String)
        → Yields (λ _. grpc.check c name ≡ ok "SERVING") (check_health c name)
    unfolding check_health
    check_health-Serving c name u h = elim (Result-cases (grpc.check c name)) [
      | inr (e, bad) ↦ let k = rw (bad, check_health) at h in absurd cc
      | inl (status, answered) ↦ elim (Bool-cases (status == "SERVING")) [
        | inl serving ↦ answered ∙ ap ok ((eq_iff status "SERVING").0 serving)
        | inr other ↦
            let k = rw (other, check_health) at (rw (answered, check_health) at h) in absurd cc
      ]
    ]

    -- what holds of a connection to a service
    pub record IsSecure (service : ServiceNames) (cfg : ServiceConfig) (c : Connection)
        : Type 0 where
      pub credentials : Credentials KeyPair Pool
      pub made : client_credentials lib cfg.tls ≡ ok credentials
      pub dialed : grpc.dial_context (service_address cfg) credentials ≡ ok c
      pub serving : grpc.check c service.health_name ≡ ok "SERVING"
      pub confined : (credentials ≢ insecure) ⊎ (is_loopback_target (service_address cfg) ≡ true)

    secured :
        (cfg : ServiceConfig) (credentials : Credentials KeyPair Pool)
        → (client_enabled cfg.tls || is_loopback_target (service_address cfg)) ≡ true
        → client_credentials lib cfg.tls ≡ ok credentials
        → (credentials ≢ insecure) ⊎ (is_loopback_target (service_address cfg) ≡ true)
    secured cfg credentials allowed made = elim (Bool-cases (client_enabled cfg.tls)) [
      | inr off ↦ inr (rw off at allowed)
      | inl on ↦ inl λ plain.
          let off = client_credentials-plaintext lib cfg.tls (made ∙ ap ok plain) in absurd cc
    ]

    connect-IsSecure :
        (service : ServiceNames) (cfg : ServiceConfig)
        → Yields (IsSecure service cfg) (connect service cfg)
    unfolding connect
    connect-IsSecure service cfg = guard-Yields _ _ ⟫ λ _ allowed.
        wrapped-Yields _ (self (client_credentials lib cfg.tls)) ⟫ λ credentials made.
        wrapped-Yields _ (self (grpc.dial_context (service_address cfg) credentials)) ⟫ λ c dialed.
        wrapped-Yields _ (check_health-Serving c service.health_name) ⟫ λ _ serving.
        ok-Yields (IsSecure service cfg) (record {
          credentials = credentials;
          made = made;
          dialed = dialed;
          serving = serving;
          confined = secured cfg credentials allowed made;
        })

    abbrev AreSecure : Config → Connection × Connection × Connection → Type 0
    AreSecure cfg (t, c, u) =
        IsSecure token_service cfg.token_service t
        × IsSecure token_creation_service cfg.token_creation_service c
        × IsSecure upload_service cfg.upload_service u

    secure_services : (cfg : Config) → Yields (AreSecure cfg) (connect_services cfg)
    unfolding connect_services
    secure_services cfg = connect-IsSecure token_service cfg.token_service ⟫ λ t first.
        connect-IsSecure token_creation_service cfg.token_creation_service ⟫ λ c second.
        connect-IsSecure upload_service cfg.upload_service ⟫ λ u third.
        ok-Yields (AreSecure cfg) (first, second, third)

    -- When `New` has its connections, each of the three was dialed with the credentials of its service's
    -- settings, to a service that said it is serving, and without TLS only if the address of the
    -- service is one of the loopback.
    pub connect_services-AreSecure :
        (cfg : Config) (t c u : Connection)
        → connect_services cfg ≡ ok (t, c, u)
        → IsSecure token_service cfg.token_service t
          × IsSecure token_creation_service cfg.token_creation_service c
          × IsSecure upload_service cfg.upload_service u
    connect_services-AreSecure cfg t c u = secure_services cfg (t, c, u)
