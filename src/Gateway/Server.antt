-- ===== src/Gateway/Server.antt =====
-- The gRPC services of the rebuild: app-rebuild/internal/grpcapi (server.go, auth.go, token.go,
-- token_creation.go, upload.go). A call carries the values of its "authorization" metadata.
pub mod Files
use meme_launchpad_backend.Common.{
  ℕ, ◌-◌, ◌*◌, String, Bool, true, false, ◌||◌, Option, none, some, List, [], ◌∷◌, ◌++◌, map, ltb,
  ◌==◌, nat_eq, string_eq, if◌then◌else◌,
}
use mathlib.Core.Option
use meme_launchpad_backend.Fallible.{error_text, Error, msg, wrap, Result, ok, err}
use meme_launchpad_backend.Go.Strconv.{ℤ, pos}
use meme_launchpad_backend.Go.Strings.{cut_prefix}
use meme_launchpad_backend.Auth.{
  err_invalid_address, err_invalid_signature, err_invalid_nonce, err_invalid_siwe,
}
use meme_launchpad_backend.Gateway.{
  items_of, Claims, TokenReader, TokenCreator, Presigner, Authenticator, to_int32, positive,
}
use meme_launchpad_backend.Gateway.Messages.{
  invalid_argument, unauthenticated, not_found, internal, Rpc, message, status, ◌onward◌, Timestamp,
  unix_timestamp, TokenMessage, ListTokensRequest, ListTokensResponse, CreateTokenRequest,
  CreateTokenResponse, ImageKind, unspecified, token_logo, token_banner, activity_image,
  PresignImageRequest, PresignImageResponse, timestamp, token_message,
}

-- errors.Is for an error that errors.New made with a text
unfoldable pub is_error : Error → Error → Bool
is_error (wrap _ _) _ = false
is_error (msg s) (msg t) = s == t
is_error (msg s) (wrap t e) = is_error (msg s) e

unfoldable pub auth_status : {A : Type 0} → Error → Rpc A
unfolding is_error
auth_status e =
    if is_error err_invalid_address e
    then status invalid_argument (error_text e)
    else if is_error err_invalid_signature e
        || (is_error err_invalid_nonce e || is_error err_invalid_siwe e)
    then status unauthenticated (error_text e)
    else status internal "authentication failed"

unfoldable pub bearer_claims : (String → Result Claims) → List String → Rpc Claims
unfolding cut_prefix
bearer_claims parse [] = status unauthenticated "missing bearer token"
bearer_claims parse (v ∷ _) = elim (cut_prefix "Bearer " v) [
  | none ↦ status unauthenticated "invalid bearer token"
  | some t ↦ if t == "" then status unauthenticated "invalid bearer token" else elim (parse t) [
    | err e ↦ status unauthenticated (error_text e)
    | ok claims ↦ message claims
  ]
]

-- a field that may be missing, if it is not below one
abbrev pub or_default : ℕ → Option ℤ → Option ℕ
or_default n none = some n
or_default n (some k) = positive k

unfoldable pub grpc_pagination : ListTokensRequest → Rpc (ℕ × ℕ)
grpc_pagination r = elim (or_default 1 r.page) [
  | none ↦ status invalid_argument "page must be positive"
  | some page ↦ elim (or_default 20 r.page_size) [
    | none ↦ status invalid_argument "page_size must be from 1 to 100"
    | some size ↦
        if ltb 100 size
        then status invalid_argument "page_size must be from 1 to 100"
        else message (page, size)
  ]
]

module _ (tokens : TokenReader) where
  -- An int holds the offset of every page that an int32 numbers.
  unfoldable pub list_tokens : ListTokensRequest → Rpc ListTokensResponse
  unfolding grpc_pagination token_message to_int32
  list_tokens r = grpc_pagination r onward λ (page, size).
      elim (tokens.list (pos size) (pos ((page - 1) * size))) [
        | err _ ↦ status internal "failed to list tokens"
        | ok items ↦ message (record {
          items = map token_message (items_of items);
          page = to_int32 (pos page);
          page_size = to_int32 (pos size);
        })
      ]

  unfoldable pub get_token : String → Rpc (Option TokenMessage)
  unfolding token_message
  get_token contract_address =
      if contract_address == ""
      then status invalid_argument "contract_address is required"
      else elim (tokens.find_by_address contract_address) [
        | err _ ↦ status internal "failed to get token"
        | ok none ↦ status not_found "token not found"
        | ok (some t) ↦ message (some (token_message t))
      ]

-- `authv1.User` in the fields of `User`, and the three responses of the authentication service
pub record WalletLoginResponse : Type 0 where
  pub token : String
  pub user_id : ℕ
  pub user_address : String
  pub expires_at : Timestamp

pub record RequestSignMessageResponse : Type 0 where
  pub text : String
  pub nonce : String
  pub expires_at : Timestamp

pub record GetCurrentUserResponse : Type 0 where
  pub user_id : ℕ
  pub address : String
  pub issued_at : Option Timestamp
  pub expires_at : Option Timestamp

module _ {S : Type 0} (auth : Authenticator S) where
  unfoldable pub request_sign_message : String → S → Rpc RequestSignMessageResponse × S
  unfolding auth_status
  request_sign_message address s =
      let (r, s') = auth.request_message address s in
      elim r [
        | err e ↦ (auth_status e, s')
        | ok m ↦ (
          message (record {
            text = m.text;
            nonce = m.sign_nonce;
            expires_at = unix_timestamp m.sign_expires;
          }),
          s',
        )
      ]

  unfoldable pub wallet_login : String → String → S → Rpc WalletLoginResponse × S
  unfolding auth_status
  wallet_login address signature s =
      let (r, s') = auth.login address signature s in
      elim r [
        | err e ↦ (auth_status e, s')
        | ok l ↦ (
          message (record {
            token = l.token;
            user_id = l.user.id;
            user_address = l.user.user_address;
            expires_at = unix_timestamp l.expires;
          }),
          s',
        )
      ]

  unfoldable pub get_current_user : List String → Rpc GetCurrentUserResponse
  unfolding bearer_claims
  get_current_user metadata = bearer_claims auth.parse_token metadata onward λ claims.
      message (record {
        user_id = claims.user_id;
        address = claims.address;
        issued_at = Option.map timestamp claims.issued_at;
        expires_at = Option.map timestamp claims.expires_at;
      })

module _ {S : Type 0} (parse : String → Result Claims) (hex_to_address : String → ℕ)
    (creation : TokenCreator S) where
  -- The creator is the wallet of the token, whatever the request says.
  unfoldable pub create_token : List String → CreateTokenRequest → S → Rpc CreateTokenResponse × S
  unfolding bearer_claims
  create_token metadata r s = elim (bearer_claims parse metadata) [
    | status code text ↦ (status code text, s)
    | message claims ↦
        let (result, s') =
          creation.create none
            (record {
              name = r.name;
              symbol = r.symbol;
              creator = hex_to_address claims.address;
              launch_time = r.launch_time;
              initial_buy_percentage = r.initial_buy_percentage;
            })
            s in
        elim result [
          | err e ↦ (status invalid_argument (error_text e), s')
          | ok a ↦ (
            message (record {
              create_arg = a.call_data;
              signature = a.signature;
              request_id = a.request_id;
              create2_salt = a.salt;
              predicted_address = a.predicted_address;
              nonce = a.nonce;
              timestamp = a.timestamp;
            }),
            s',
          )
        ]
  ]

-- `Dependencies` and the services that `NewServer` registers for them
pub record Dependencies (S : Type 0) : Type 0 where
  pub tokens : Option TokenReader
  pub auth : Option (Authenticator S)
  pub token_creation_auth : Option (String → Result Claims)
  pub token_creation : Option (TokenCreator S)
  pub upload_auth : Option (String → Result Claims)
  pub uploads : Option (Presigner S)

abbrev pub named {ℓ} : {A : Type ℓ} → String → Option A → List String
named name none = []
named name (some _) = name ∷ []

abbrev pub or_auth :
    {S : Type 0}
    → Option (String → Result Claims)
    → Option (Authenticator S)
    → Option (String → Result Claims)
or_auth (some parse) _ = some parse
or_auth none none = none
or_auth none (some a) = some a.parse_token

abbrev pub both {ℓ κ} : {A : Type ℓ} {B : Type κ} → Option A → Option B → Option (A × B)
both (some a) (some b) = some (a, b)
both _ _ = none

unfoldable pub new_server : {S : Type 0} → Dependencies S → List String
new_server d =
    named "token" d.tokens
    ++ (named "auth" d.auth
        ++ (named "token creation" (both (or_auth d.token_creation_auth d.auth) d.token_creation)
            ++ named "upload" (both (or_auth d.upload_auth d.auth) d.uploads)))
