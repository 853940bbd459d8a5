-- ===== src/Gateway/Server/Files.antt =====
-- The upload service: app-rebuild/internal/grpcapi/upload.go.
use meme_launchpad_backend.Common.{
  String, Bool, true, none, some, List, ◌==◌, nat_eq, string_eq, if◌then◌else◌,
}
use meme_launchpad_backend.Fallible.{error_text, Result, ok, err}
use meme_launchpad_backend.Go.Strconv.{pos}
use meme_launchpad_backend.Gateway.{Claims, Presigner}
use meme_launchpad_backend.Gateway.Messages.{
  invalid_argument, internal, Rpc, message, status, unix_timestamp, ImageKind, unspecified,
  token_logo, token_banner, activity_image, PresignImageRequest, PresignImageResponse,
}
use meme_launchpad_backend.Gateway.Server.{bearer_claims, or_default}

abbrev pub image_folder : ImageKind → Rpc String
image_folder token_logo = message "token-logo"
image_folder token_banner = message "token-banner"
image_folder activity_image = message "activity-image"
image_folder unspecified = status invalid_argument "image kind is required"

module _ {S : Type 0} (parse : String → Result Claims) (uploads : Presigner S) where
  -- `PresignImage` once the caller and the folder are known
  unfoldable pub presign_in : String → PresignImageRequest → S → Rpc PresignImageResponse × S
  presign_in folder r s =
      let mime_type = if r.mime_type == "" then "image/png" else r.mime_type in
      elim (or_default 97 r.chain_id) [
        | none ↦ (status invalid_argument "chain_id must be positive", s)
        | some chain_id ↦
            let (result, s') = uploads.presign none folder mime_type (pos chain_id) s in
            elim result [
              | err e ↦ (status invalid_argument (error_text e), s')
              | ok p ↦ (
                message (record {
                  upload_url = p.upload_url;
                  public_url = p.public_url;
                  file_name = p.file_name;
                  key = p.key;
                  expires_at = some (unix_timestamp p.expires);
                }),
                s',
              )
            ]
      ]

  unfoldable pub presign_image :
      List String → PresignImageRequest → S → Rpc PresignImageResponse × S
  unfolding bearer_claims presign_in
  presign_image metadata r s = elim (bearer_claims parse metadata) [
    | status code text ↦ (status code text, s)
    | message _ ↦ elim (image_folder r.kind) [
      | status code text ↦ (status code text, s)
      | message folder ↦ presign_in folder r s
    ]
  ]

  unfoldable pub confirm_upload : List String → S → Rpc Bool × S
  unfolding bearer_claims
  confirm_upload metadata s = elim (bearer_claims parse metadata) [
    | status code text ↦ (status code text, s)
    | message _ ↦
        let (result, s') = uploads.confirm none s in
        elim result [
          | err _ ↦ (status internal "failed to confirm upload", s')
          | ok _ ↦ (message true, s')
        ]
  ]
