-- ===== src/Gateway/Http/Routes.antt =====
-- The routes of `NewHandler` in app-rebuild/internal/httpapi/server.go.
use meme_launchpad_backend.Common.{ℕ, String, Option, none, some, ◌==◌, string_eq, if◌then◌else◌}
use meme_launchpad_backend.Gateway.{TokenReader, TokenCreator, Presigner, Authenticator}
use meme_launchpad_backend.Gateway.Http.{
  Bodies, Reply, Request, create_token, current_user, health, plain, presign_image, sign_msg,
  token_detail, token_list, upload_confirm, wallet_login,
}

-- The arguments of `NewHandler` that may be nil, and what the handlers call of other packages.
pub record Handlers (S : Type 0) : Type 0 where
  pub service_name : String
  pub auth : Option (Authenticator S)
  pub tokens : Option TokenReader
  pub creation : Option (TokenCreator S)
  pub uploads : Option (Presigner S)
  pub bodies : Bodies
  pub hex_to_address : String → ℕ

abbrev pub not_registered : Reply
not_registered = record { status = 404; body = plain "404 page not found" }

-- the routes that read tokens
unfoldable pub serve_tokens : TokenReader → Request → Option Reply
unfolding token_list token_detail
serve_tokens tokens r =
    if r.path == "/api/v1/token/list"
    then some (token_list tokens r)
    else if r.path == "/api/v1/token/detail"
    then some (token_detail tokens r)
    else none

module _ {S : Type 0} where
  unfoldable pub serve_uploads : Authenticator S → Option (Presigner S) → Request → S → Reply × S
  unfolding presign_image upload_confirm
  serve_uploads auth none r s = (not_registered, s)
  serve_uploads auth (some uploads) r s =
      if r.path == "/api/v1/file/token-logo-presign"
      then presign_image auth uploads "token-logo" r s
      else if r.path == "/api/v1/file/token-banner-presign"
      then presign_image auth uploads "token-banner" r s
      else if r.path == "/api/v1/file/activity-image-presign"
      then presign_image auth uploads "activity-image" r s
      else if r.path == "/api/v1/file/upload-confirm"
      then upload_confirm auth uploads r s
      else (not_registered, s)

  unfoldable pub serve_creation : Handlers S → Authenticator S → Request → S → Reply × S
  unfolding create_token
  serve_creation d auth r s = elim d.creation [
    | none ↦ (not_registered, s)
    | some creation ↦ create_token auth d.hex_to_address d.bodies creation r s
  ]

  unfoldable pub serve_auth : Handlers S → Request → S → Reply × S
  unfolding sign_msg wallet_login current_user serve_creation serve_uploads
  serve_auth d r s = elim d.auth [
    | none ↦ (not_registered, s)
    | some auth ↦
        if r.path == "/api/v1/user/sign-msg"
        then sign_msg auth r s
        else if r.path == "/api/v1/user/wallet-login"
        then wallet_login auth d.bodies r s
        else if r.path == "/api/v1/user/me"
        then (current_user auth r, s)
        else if r.path == "/api/v1/token/create"
        then serve_creation d auth r s
        else serve_uploads auth d.uploads r s
  ]

  -- the handler of `NewHandler`, whose routes have distinct paths
  unfoldable pub new_handler : Handlers S → Request → S → Reply × S
  unfolding health serve_tokens serve_auth
  new_handler d r s = if r.path == "/healthz" then (health d.service_name r, s) else elim d.tokens [
    | none ↦ serve_auth d r s
    | some tokens ↦ elim (serve_tokens tokens r) [
      | some reply ↦ (reply, s)
      | none ↦ serve_auth d r s
    ]
  ]
