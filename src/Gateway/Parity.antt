-- ===== src/Gateway/Parity.antt =====
-- REST over the gRPC services and REST over what these services are made of.
pub mod Tokens
pub mod Far
pub mod Writes
pub mod Uploads
pub mod Handlers
use meme_launchpad_backend.Common.{ℕ, ◌≡◌, refl, ap, String, Option, none, some}
use meme_launchpad_backend.Fallible.{Result}
use meme_launchpad_backend.Go.Strconv.{ℤ}
use meme_launchpad_backend.TokenCreation.{Request, Response}
use meme_launchpad_backend.Upload.{PresignResult}
use meme_launchpad_backend.Gateway.{Claims, TokenCreator, Presigner, items_of}
use meme_launchpad_backend.Gateway.Server
use meme_launchpad_backend.Gateway.Server.Files
use meme_launchpad_backend.Gateway.Client
use meme_launchpad_backend.Gateway.Http.{
  Value, health_ok, page_of, detail, sign_message, logged_in, user, created, presigned, confirmed,
  Body, value, failed, failed_by, plain, empty, Reply,
}

-- a value with an empty list in place of null for a page without tokens
abbrev pub filled : Value → Value
filled (page_of items page size) = page_of (some (items_of items)) page size
filled v = v

abbrev pub filled_body : Body → Body
filled_body (value v) = value (filled v)
filled_body (failed text) = failed text
filled_body (failed_by e) = failed_by e
filled_body (plain text) = plain text
filled_body empty = empty

abbrev pub filled_reply : Reply → Reply
filled_reply r = record { status = r.status; body = filled_body r.body }

-- the status of a reply, and the value of one that succeeds, with a page of null as an empty one
abbrev pub body_value : Body → Option Value
body_value (value v) = some (filled v)
body_value (failed _) = none
body_value (failed_by _) = none
body_value (plain _) = none
body_value empty = none

abbrev pub outcome : Reply → ℕ × Option Value
outcome r = (r.status, body_value r.body)

filled-filled : (v : Value) → filled (filled v) ≡ filled v
filled-filled (health_ok s) = refl
filled-filled (page_of items page size) = refl
filled-filled (detail t) = refl
filled-filled (sign_message m) = refl
filled-filled (logged_in l) = refl
filled-filled (user c) = refl
filled-filled (created r) = refl
filled-filled (presigned p) = refl
filled-filled confirmed = refl

body_value-filled_body : (b : Body) → body_value (filled_body b) ≡ body_value b
body_value-filled_body (value v) = ap some (filled-filled v)
body_value-filled_body (failed text) = refl
body_value-filled_body (failed_by e) = refl
body_value-filled_body (plain text) = refl
body_value-filled_body empty = refl

pub outcome-filled_reply : (r : Reply) → outcome (filled_reply r) ≡ outcome r
outcome-filled_reply r = ap (λ v. (r.status, v)) (body_value-filled_body r.body)

-- Services that read no bearer token from their context, as those of tokencreation and upload
abbrev pub local_creator : {S : Type 0} → (Request → S → Result Response × S) → TokenCreator S
local_creator create = record { create = λ _. create }

abbrev pub local_presigner :
    {S : Type 0}
    → (String → String → ℤ → S → Result PresignResult × S)
    → (S → Result (Unit {0}) × S)
    → Presigner S
local_presigner presign confirm = record { presign = λ _. presign; confirm = λ _. confirm }

-- the adapters over the gRPC services over them
module _ {S : Type 0} (parse : String → Result Claims) where
  abbrev pub remote_creator : (String → ℕ) → (Request → S → Result Response × S) → TokenCreator S
  remote_creator hex_to_address create =
      Client.token_creator (Server.create_token parse hex_to_address (local_creator create))

  abbrev pub remote_presigner :
      (String → String → ℤ → S → Result PresignResult × S)
      → (S → Result (Unit {0}) × S)
      → Presigner S
  remote_presigner presign confirm =
      Client.upload_service (Files.presign_image parse (local_presigner presign confirm))
        (Files.confirm_upload parse (local_presigner presign confirm))
