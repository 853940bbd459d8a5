-- ===== src/Upload.antt =====
-- Presigned uploads of the rebuild: app-rebuild/internal/upload/service.go. SHA-1, HMAC and the escape
-- of url.Values are parameters; a time is a number of seconds, `clock` has the two readings of a call.
pub mod Distinct
use Prim.Native.Char.{code}
use Prim.Native.String
use meme_launchpad_backend.Common.{
  ℕ, ◌+◌, String, Bool, ◌||◌, List, [], ◌∷◌, ltb, ◌==◌, string_eq, nat_eq, if◌then◌else◌,
}
use meme_launchpad_backend.Fallible.{msg, Result, ok, err, wrapped, ◌>>=◌, ◌>>◌, guard}
use meme_launchpad_backend.Go.Strconv.{itoa}
use meme_launchpad_backend.Go.Strings.{◌<>◌}
use meme_launchpad_backend.Go.Hex.{encode_hex}
use meme_launchpad_backend.Config.{CosConfig, is_set}

pub record Packages : Type 0 where
  pub hmac_sha1 : String → String → String
  pub sha1_hex : String → String
  pub query_escape : String → String
  pub to_lower : String → String

pub record Service : Type 0 where
  pub secret_id : String
  pub secret_key : String
  pub bucket : String
  pub region : String
  pub domain : String

pub record PresignResult : Type 0 where
  pub upload_url : String
  pub public_url : String
  pub file_name : String
  pub key : String
  pub expires : ℕ

unfoldable pub new_service : CosConfig → Result Service
new_service cfg =
    if cfg.secret_id == "" || (cfg.secret_key == "" || (cfg.bucket == "" || cfg.region == ""))
    then err (msg "COS_SECRET_ID, COS_SECRET_KEY, COS_BUCKET, and COS_REGION are required")
    else ok (record {
      secret_id = cfg.secret_id;
      secret_key = cfg.secret_key;
      bucket = cfg.bucket;
      region = cfg.region;
      domain = cfg.domain;
    })

-- strings.TrimSuffix(s, "/")
unfoldable pub trim_slash : String → String
trim_slash String.[] = ""
trim_slash (String.◌∷◌ c s) =
    let rest = trim_slash s in
    if s == "" then (if code c == 47 then "" else String.◌∷◌ c s) else String.◌∷◌ c rest

module _ (s : Service) where
  abbrev pub host : String
  host = s.bucket <> ".cos." <> s.region <> ".myqcloud.com"

  unfoldable pub public_url : String → String
  unfolding trim_slash
  public_url key =
      if is_set s.domain
      then trim_slash s.domain <> "/" <> key
      else "https://" <> host <> "/" <> key

abbrev pub object_key : String → ℕ → String → String
object_key folder chain_id file_name = folder <> "/" <> itoa chain_id <> "/" <> file_name

module _ (lib : Packages) where
  unfoldable pub extension : String → String
  extension mime =
      let t = lib.to_lower mime in
      if t == "jpg" || (t == "jpeg" || t == "image/jpeg")
      then ".jpg"
      else if t == "gif" || t == "image/gif"
      then ".gif"
      else if t == "webp" || t == "image/webp"
      then ".webp"
      else if t == "svg" || t == "image/svg+xml"
      then ".svg"
      else ".png"

  -- the random source gives 16 bytes or an error
  unfoldable pub random_file_name : Result (List ℕ) → String → Result String
  unfolding encode_hex extension
  random_file_name read mime = do
    bytes ← wrapped "generate file name" read
    ok (encode_hex bytes <> extension mime)

  -- `query.Encode` puts the keys into order and escapes the values
  unfoldable pub presigned_put_url : Service → String → ℕ → ℕ → String
  unfolding itoa
  presigned_put_url s key start end =
      let path = "/" <> key in
      let key_time = itoa start <> ";" <> itoa end in
      let sign_key = lib.hmac_sha1 s.secret_key key_time in
      let format_string = "put\n" <> path <> "\n\n\n" in
      let string_to_sign = "sha1\n" <> key_time <> "\n" <> lib.sha1_hex format_string <> "\n" in
      let signature = lib.hmac_sha1 sign_key string_to_sign in
      "https://"
      <> host s
      <> path
      <> "?q-ak="
      <> lib.query_escape s.secret_id
      <> "&q-header-list=&q-key-time="
      <> lib.query_escape key_time
      <> "&q-sign-algorithm=sha1&q-sign-time="
      <> lib.query_escape key_time
      <> "&q-signature="
      <> lib.query_escape signature
      <> "&q-url-param-list="

  unfoldable pub presign :
      Service → (ℕ → ℕ) → Result (List ℕ) → String → String → ℕ → Result PresignResult
  unfolding random_file_name presigned_put_url public_url itoa
  presign s clock read folder mime chain_id = do
    guard (is_set folder) (msg "folder is required")
    guard (ltb 0 chain_id) (msg "chainId must be positive")
    file_name ← random_file_name read mime
    let key = object_key folder chain_id file_name
    let expires_at = clock 0 + 3600
    ok (record {
      upload_url = presigned_put_url s key (clock 1) expires_at;
      public_url = public_url s key;
      file_name = file_name;
      key = key;
      expires = expires_at;
    })
