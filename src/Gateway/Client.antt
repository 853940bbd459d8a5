-- ===== src/Gateway/Client.antt =====
-- The adapters of app-rebuild/internal/grpcclient. A client is the function that makes the call, with the
-- values of the "authorization" metadata where it sends some.
use meme_launchpad_backend.Common.{
  ℕ, ◌+◌, ◌-◌, ◌/◌, ◌%◌, ◌^◌, String, Bool, ◌||◌, Option, none, some, List, [], ◌∷◌, ltb, not, ◌==◌,
  nat_eq, string_eq, if◌then◌else◌,
}
use meme_launchpad_backend.Fallible.{msg, wrap, Result, ok, err, ◌>>=◌}
use meme_launchpad_backend.Go.Strconv.{ℤ, pos, negsuc}
use meme_launchpad_backend.Go.Strings.{◌<>◌}
use meme_launchpad_backend.TokenCreation.{Request, Response}
use meme_launchpad_backend.Upload.{PresignResult}
use meme_launchpad_backend.Gateway.{Slice, Token, TokenReader, TokenCreator, Presigner, to_int32}
use meme_launchpad_backend.Gateway.Messages.{
  Code, invalid_argument, unauthenticated, not_found, internal, Rpc, message, status, Timestamp,
  TokenMessage, ListTokensRequest, ListTokensResponse, CreateTokenRequest, CreateTokenResponse,
  ImageKind, token_logo, token_banner, activity_image, PresignImageRequest, PresignImageResponse,
  check_valid, repository_token, repository_tokens,
}

abbrev pub code_name : Code → String
code_name invalid_argument = "InvalidArgument"
code_name unauthenticated = "Unauthenticated"
code_name not_found = "NotFound"
code_name internal = "Internal"

-- the error of a call, in the text that package status gives it
unfoldable pub call : {A : Type 0} → String → Rpc A → Result A
call text (message a) = ok a
call text (status code desc) =
    err (wrap text (msg ("rpc error: code = " <> code_name code <> " desc = " <> desc)))

module _ (list_tokens : ListTokensRequest → Rpc ListTokensResponse)
    (get_token : String → Rpc (Option TokenMessage)) where
  -- `List` for a limit and an offset that are not negative
  unfoldable pub list_page : ℕ → ℕ → Result (Slice Token)
  unfolding call repository_tokens to_int32
  list_page limit offset =
      if not (offset % limit == 0)
      then err (msg "token list offset must be a non-negative multiple of limit")
      else let page = offset / limit + 1 in
        if ltb (2 ^ 31 - 1) page then err (msg "token list page exceeds gRPC range") else do
          response ← call "list tokens over internal gRPC" (
              list_tokens (record {
                page = some (to_int32 (pos page));
                page_size = some (to_int32 (pos limit));
              }))
          items ← repository_tokens response.items
          ok (some items)

  unfoldable pub list : ℤ → ℤ → Result (Slice Token)
  unfolding list_page
  list (negsuc _) _ = err (msg "token list limit must be from 1 to 100")
  list (pos limit) offset =
      if ltb limit 1 || ltb 100 limit
      then err (msg "token list limit must be from 1 to 100")
      else elim offset [
        | negsuc _ ↦ err (msg "token list offset must be a non-negative multiple of limit")
        | pos n ↦ list_page limit n
      ]

  -- No error of this reader is pgx.ErrNoRows.
  unfoldable pub find_by_address : String → Result (Option Token)
  unfolding call repository_token
  find_by_address address = do
    response ← call "get token over internal gRPC" (get_token address)
    token ← repository_token response
    ok (some token)

  abbrev pub token_reader : TokenReader
  token_reader = record { list = list; find_by_address = find_by_address }

-- `BearerTokenFromContext`, and the metadata that carries the token
abbrev pub bearer_token_from_context : Option String → Option String
bearer_token_from_context none = none
bearer_token_from_context (some t) = if t == "" then none else some t

abbrev pub bearer_metadata : String → List String
bearer_metadata token = ("Bearer " <> token) ∷ []

module _ {S : Type 0}
    (create_token : List String → CreateTokenRequest → S → Rpc CreateTokenResponse × S) where
  unfoldable pub create : Option String → Request → S → Result Response × S
  unfolding call
  create context request s = elim (bearer_token_from_context context) [
    | none ↦ (err (msg "bearer token is required for internal token creation"), s)
    | some token ↦
        let (reply, s') =
          create_token (bearer_metadata token)
            (record {
              name = request.name;
              symbol = request.symbol;
              launch_time = request.launch_time;
              initial_buy_percentage = request.initial_buy_percentage;
            })
            s in
        (
          call "create token over internal gRPC" reply >>= λ r. ok (record {
            call_data = r.create_arg;
            signature = r.signature;
            request_id = r.request_id;
            salt = r.create2_salt;
            predicted_address = r.predicted_address;
            nonce = r.nonce;
            timestamp = r.timestamp;
          }),
          s',
        )
  ]

  abbrev pub token_creator : TokenCreator S
  token_creator = record { create = create }

unfoldable pub image_kind : String → Result ImageKind
image_kind folder =
    if folder == "token-logo"
    then ok token_logo
    else if folder == "token-banner"
    then ok token_banner
    else if folder == "activity-image"
    then ok activity_image
    else err (msg ("unsupported upload folder \"" <> folder <> "\""))

-- the seconds of the time of an answer, or 0 without one
unfoldable pub expiry : Option Timestamp → Result ℕ
unfolding check_valid
expiry none = ok 0
expiry (some t) =
    check_valid "internal gRPC returned an invalid upload expiry" t >>= λ _. ok t.seconds

module _ {S : Type 0}
    (presign_image : List String → PresignImageRequest → S → Rpc PresignImageResponse × S)
    (confirm_upload : List String → S → Rpc Bool × S) where
  -- `Presign` from the call on
  unfoldable pub presign_kind : String → ImageKind → String → ℕ → S → Result PresignResult × S
  unfolding call expiry to_int32
  presign_kind token kind mime_type chain_id s =
      let (reply, s') =
        presign_image (bearer_metadata token)
          (record { kind = kind; mime_type = mime_type; chain_id = some (to_int32 (pos chain_id)) })
          s in
      (
        call "presign upload over internal gRPC" reply >>= λ r. expiry r.expires_at >>= λ expires.
            ok (record {
              upload_url = r.upload_url;
              public_url = r.public_url;
              file_name = r.file_name;
              key = r.key;
              expires = expires;
            }),
        s',
      )

  unfoldable pub presign : Option String → String → String → ℤ → S → Result PresignResult × S
  unfolding image_kind presign_kind
  presign context folder mime_type chain_id s = elim (bearer_token_from_context context) [
    | none ↦ (err (msg "bearer token is required for internal upload presigning"), s)
    | some token ↦ elim (image_kind folder) [
      | err e ↦ (err e, s)
      | ok kind ↦ elim chain_id [
        | negsuc _ ↦ (err (msg "chain ID exceeds gRPC range"), s)
        | pos n ↦
            if ltb n 1 || ltb (2 ^ 31 - 1) n
            then (err (msg "chain ID exceeds gRPC range"), s)
            else presign_kind token kind mime_type n s
      ]
    ]
  ]

  unfoldable pub confirm : Option String → S → Result (Unit {0}) × S
  unfolding call
  confirm context s = elim (bearer_token_from_context context) [
    | none ↦ (err (msg "bearer token is required for internal upload confirmation"), s)
    | some token ↦
        let (reply, s') = confirm_upload (bearer_metadata token) s in
        (
          call "confirm upload over internal gRPC" reply >>= λ accepted.
              if accepted then ok tt else err (msg "internal upload confirmation was rejected"),
          s',
        )
  ]

  abbrev pub upload_service : Presigner S
  upload_service = record { presign = presign; confirm = confirm }
