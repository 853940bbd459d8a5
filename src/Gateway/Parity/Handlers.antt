-- ===== src/Gateway/Parity/Handlers.antt =====
-- Every route.
use meme_launchpad_backend.Common.{
  ℕ, ◌<◌, ◌^◌, ◌≡◌, refl, ap, ◌∙◌, String, Bool, true, false, none, some, ◌==◌, string_eq,
  Bool-cases, inl, inr, if◌then◌else◌,
}
use meme_launchpad_backend.Fallible.{msg, Result, ok}
use meme_launchpad_backend.Go.Strconv.{ℤ}
use meme_launchpad_backend.TokenCreation
use meme_launchpad_backend.TokenCreation.{Response}
use meme_launchpad_backend.Upload.{PresignResult}
use meme_launchpad_backend.Gateway.{TokenReader, Authenticator}
use meme_launchpad_backend.Gateway.Messages.{
  message, ImageKind, token_logo, token_banner, activity_image,
}
use meme_launchpad_backend.Gateway.Server.Files.{image_folder}
use meme_launchpad_backend.Gateway.Client.{image_kind}
use meme_launchpad_backend.Gateway.Http.{
  Request, Reply, Bodies, health, sign_msg, wallet_login, current_user, query_number, pagination,
  token_list, presign_image,
}
use meme_launchpad_backend.Gateway.Http.Routes.{
  Handlers, not_registered, serve_tokens, serve_uploads, serve_creation, serve_auth, new_handler,
}
use meme_launchpad_backend.Gateway.Parity.{
  outcome, outcome-filled_reply, local_creator, local_presigner, remote_creator, remote_presigner,
}
use meme_launchpad_backend.Gateway.Parity.Tokens.{
  remote_tokens, ArePortable, token_list-remote, token_detail-remote,
}
use meme_launchpad_backend.Gateway.Parity.Writes.{create_token-remote}
use meme_launchpad_backend.Gateway.Parity.Uploads.{
  ExpireInTime, upload_confirm-remote, presign_image-remote,
}

-- the numbers of a request that gRPC carries in 32 bits
pub record IsNarrow (r : Request) : Type 0 where
  pub paged : (page size : ℕ) → pagination r.query ≡ ok (page, size) → page < 2 ^ 31
  pub chained :
      (n : ℕ)
      → query_number 97 (msg "chainId must be positive") (r.query "chainId") ≡ ok n
      → n < 2 ^ 31

-- the same state, and the same status and value but for null in place of an empty list
abbrev pub Agree : {S : Type 0} → Reply × S → Reply × S → Type 0
Agree (p, s) (q, t) = (outcome p ≡ outcome q) × (s ≡ t)

if-Agree :
    {S : Type 0} (c : Bool) (x x' y y' : Reply × S)
    → Agree x x'
    → Agree y y'
    → Agree (if c then x else y) (if c then x' else y')
if-Agree true x x' y y' h k = h
if-Agree false x x' y y' h k = k

Agree-refl : {S : Type 0} (x : Reply × S) → Agree x x
Agree-refl x = (refl, refl)

image_kind-folders :
    (image_kind "token-logo" ≡ ok token_logo)
    × (image_kind "token-banner" ≡ ok token_banner)
    × (image_kind "activity-image" ≡ ok activity_image)
unfolding image_kind
image_kind-folders = (refl, refl, refl)

module _ {S : Type 0} (service_name : String) (auth : Authenticator S) (tokens : TokenReader)
    (create : TokenCreation.Request → S → Result Response × S)
    (presign : String → String → ℤ → S → Result PresignResult × S)
    (confirm : S → Result (Unit {0}) × S) (bodies : Bodies) (hex_to_address : String → ℕ) where
  -- what `NewHandler` is given when the services are in the process of the REST server
  abbrev pub local_handlers : Handlers S
  local_handlers = record {
    service_name = service_name;
    auth = some auth;
    tokens = some tokens;
    creation = some (local_creator create);
    uploads = some (local_presigner presign confirm);
    bodies = bodies;
    hex_to_address = hex_to_address;
  }

  -- and when they are gRPC services that trust the same tokens
  abbrev pub remote_handlers : Handlers S
  remote_handlers = record local_handlers {
    tokens = some (remote_tokens tokens);
    creation = some (remote_creator auth.parse_token hex_to_address create);
    uploads = some (remote_presigner auth.parse_token presign confirm);
  }

  uploads-Agree :
      ExpireInTime auth presign confirm
      → (r : Request) (s : S) → IsNarrow r
      → Agree
          (serve_uploads auth (some (remote_presigner auth.parse_token presign confirm)) r s)
          (serve_uploads auth (some (local_presigner presign confirm)) r s)
  unfolding serve_uploads
  uploads-Agree timely r s narrow =
      let signed : (folder : String) (kind : ImageKind)
          → image_kind folder ≡ ok kind
          → image_folder kind ≡ message folder
          → Agree
              (presign_image auth (remote_presigner auth.parse_token presign confirm) folder r s)
              (presign_image auth (local_presigner presign confirm) folder r s) =
        λ folder kind there back.
          presign_image-remote auth presign confirm timely folder kind r s there back
            narrow.chained in
      if-Agree (r.path == "/api/v1/file/token-logo-presign") _ _ _ _
        (signed "token-logo" token_logo image_kind-folders.0 refl)
        (if-Agree (r.path == "/api/v1/file/token-banner-presign") _ _ _ _
          (signed "token-banner" token_banner image_kind-folders.1 refl)
          (if-Agree (r.path == "/api/v1/file/activity-image-presign") _ _ _ _
            (signed "activity-image" activity_image image_kind-folders.2 refl)
            (if-Agree (r.path == "/api/v1/file/upload-confirm") _ _ _ _
              (upload_confirm-remote auth presign confirm r s) (Agree-refl (not_registered, s)))))

  auth-Agree :
      ExpireInTime auth presign confirm
      → (r : Request) (s : S) → IsNarrow r
      → Agree (serve_auth remote_handlers r s) (serve_auth local_handlers r s)
  unfolding serve_auth serve_creation
  auth-Agree timely r s narrow =
      if-Agree (r.path == "/api/v1/user/sign-msg") _ _ _ _ (Agree-refl (sign_msg auth r s)) (
        if-Agree (r.path == "/api/v1/user/wallet-login") _ _ _ _
          (Agree-refl (wallet_login auth bodies r s))
          (if-Agree (r.path == "/api/v1/user/me") _ _ _ _ (Agree-refl (current_user auth r, s)) (
            if-Agree (r.path == "/api/v1/token/create") _ _ _ _
              (create_token-remote auth hex_to_address create bodies r s)
              (uploads-Agree timely r s narrow))))

  -- a route that reads tokens, or the rest
  tokens-Agree :
      ArePortable tokens
      → (r : Request) (s : S) (x y : Reply × S) → IsNarrow r
      → Agree x y
      → Agree {S = S}
          (elim (serve_tokens (remote_tokens tokens) r) [ none ↦ x | some reply ↦ (reply, s) ])
          (elim (serve_tokens tokens r) [ none ↦ y | some reply ↦ (reply, s) ])
  unfolding serve_tokens
  tokens-Agree portable r s x y narrow rest = elim (Bool-cases (r.path == "/api/v1/token/list")) [
    | inl listed ↦ rw listed (
      ap outcome (token_list-remote tokens portable r narrow.paged)
          ∙ outcome-filled_reply (token_list tokens r),
      refl,
    )
    | inr other ↦ elim (Bool-cases (r.path == "/api/v1/token/detail")) [
      | inl one ↦ rw other (rw one (ap outcome (token_detail-remote tokens portable r), refl))
      | inr neither ↦ rw other (rw neither rest)
    ]
  ]

  -- For every request whose page and chain id fit into 32 bits, REST over the gRPC services replies with
  -- the status and the value, and leaves the state, of REST over what the services are made of, as long
  -- as the tokens that are read fit into a message and the times at which uploads end lie before the
  -- year 10000. The values are compared with an empty list in place of null: a page without tokens may be
  -- null over the repository and is an empty list over the token service.
  pub new_handler-Agree :
      ArePortable tokens
      → ExpireInTime auth presign confirm
      → (r : Request) (s : S) → IsNarrow r
      → Agree (new_handler remote_handlers r s) (new_handler local_handlers r s)
  unfolding new_handler
  new_handler-Agree portable timely r s narrow =
      if-Agree (r.path == "/healthz") _ _ _ _ (Agree-refl (health service_name r, s))
        (tokens-Agree portable r s _ _ narrow (auth-Agree timely r s narrow))
