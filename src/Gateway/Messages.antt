-- ===== src/Gateway/Messages.antt =====
-- The messages of app-rebuild/api/proto that the servers and their clients exchange, and the conversions
-- of grpcapi/token.go and grpcclient/token_reader.go between them and the application's types.
pub mod RoundTrip
use meme_launchpad_backend.Common.{
  ℕ, ◌+◌, ◌*◌, ◌/◌, ◌%◌, ◌^◌, String, Option, none, some, List, [], ◌∷◌, ltb, not, if◌then◌else◌,
}
use meme_launchpad_backend.Fallible.{msg, wrap, Result, ok, err, ◌>>=◌, ◌>>◌}
use meme_launchpad_backend.Go.Strconv.{ℤ}
use meme_launchpad_backend.Gateway.{Token, to_int32}

pub data Code : Type 0 where
  invalid_argument : Code
  unauthenticated : Code
  not_found : Code
  internal : Code

-- what a call over gRPC gives: a message, or a status with its text
pub data Rpc (A : Type 0) : Type 0 where
  message : A → Rpc A
  status : Code → String → Rpc A

-- the next statement after a call whose status is returned at once
infixl 5 ◌onward◌
abbrev pub ◌onward◌ : {A B : Type 0} → Rpc A → (A → Rpc B) → Rpc B
message a onward next = next a
status code text onward next = status code text

-- `timestamppb.Timestamp`
pub record Timestamp : Type 0 where
  pub seconds : ℕ
  pub nanos : ℕ

pub record TokenMessage : Type 0 where
  pub id : ℕ
  pub name : String
  pub symbol : String
  pub logo : String
  pub description : Option String
  pub contract_address : String
  pub creator_address : String
  pub launch_mode : ℤ
  pub bnb_current : String
  pub bnb_target : String
  pub total_supply : String
  pub status : ℤ
  pub created_at : Option Timestamp

-- the int32 fields of `ListTokensRequest`, which may be missing
pub record ListTokensRequest : Type 0 where
  pub page : Option ℤ
  pub page_size : Option ℤ

pub record ListTokensResponse : Type 0 where
  pub items : List TokenMessage
  pub page : ℤ
  pub page_size : ℤ

-- `CreateTokenRequest`, which has no creator
pub record CreateTokenRequest : Type 0 where
  pub name : String
  pub symbol : String
  pub launch_time : ℕ
  pub initial_buy_percentage : ℕ

pub record CreateTokenResponse : Type 0 where
  pub create_arg : String
  pub signature : String
  pub request_id : String
  pub create2_salt : String
  pub predicted_address : String
  pub nonce : ℕ
  pub timestamp : ℕ

pub data ImageKind : Type 0 where
  unspecified : ImageKind
  token_logo : ImageKind
  token_banner : ImageKind
  activity_image : ImageKind

pub record PresignImageRequest : Type 0 where
  pub kind : ImageKind
  pub mime_type : String
  pub chain_id : Option ℤ

pub record PresignImageResponse : Type 0 where
  pub upload_url : String
  pub public_url : String
  pub file_name : String
  pub key : String
  pub expires_at : Option Timestamp

-- `timestamppb.New` of a time in nanoseconds, and `AsTime`
abbrev pub timestamp : ℕ → Timestamp
timestamp t = record { seconds = t / 10 ^ 9; nanos = t % 10 ^ 9 }

abbrev pub as_time : Timestamp → ℕ
as_time t = t.seconds * 10 ^ 9 + t.nanos

-- `timestamppb.New` of a time in seconds
abbrev pub unix_timestamp : ℕ → Timestamp
unix_timestamp t = record { seconds = t; nanos = 0 }

-- the seconds from 1970 to the end of the year 9999
abbrev pub year_10000 : ℕ
year_10000 = 253402300800

-- `CheckValid`, for times after 1970
unfoldable pub check_valid : String → Timestamp → Result (Unit {0})
check_valid text t =
    if ltb t.seconds year_10000
    then (if ltb t.nanos (10 ^ 9)
        then ok tt
        else err (wrap text (msg "timestamp has out-of-range nanos")))
    else err (wrap text (msg "timestamp after 9999-12-31"))

unfoldable pub token_message : Token → TokenMessage
unfolding to_int32
token_message t = record {
  id = t.id;
  name = t.name;
  symbol = t.symbol;
  logo = t.logo;
  description = t.description;
  contract_address = t.contract_address;
  creator_address = t.creator_address;
  launch_mode = to_int32 t.launch_mode;
  bnb_current = t.bnb_current;
  bnb_target = t.bnb_target;
  total_supply = t.total_supply;
  status = to_int32 t.status;
  created_at = some (timestamp t.created_at);
}

-- the time of a message; without one it is the zero time, which counts as 0 here
unfoldable pub created_time : Option Timestamp → Result ℕ
unfolding check_valid
created_time none = ok 0
created_time (some t) = do
  check_valid "internal gRPC returned an invalid token timestamp" t
  ok (as_time t)

unfoldable pub repository_token : Option TokenMessage → Result Token
unfolding created_time
repository_token none = err (msg "internal gRPC returned an empty token")
repository_token (some m) = do
  created_at ← created_time m.created_at
  ok (record {
    id = m.id;
    name = m.name;
    symbol = m.symbol;
    logo = m.logo;
    description = m.description;
    contract_address = m.contract_address;
    creator_address = m.creator_address;
    launch_mode = m.launch_mode;
    bnb_current = m.bnb_current;
    bnb_target = m.bnb_target;
    total_supply = m.total_supply;
    status = m.status;
    created_at = created_at;
  })

-- the loop of `List` over the items
unfoldable pub repository_tokens : List TokenMessage → Result (List Token)
unfolding repository_token
repository_tokens [] = ok []
repository_tokens (m ∷ ms) = do
  t ← repository_token (some m)
  ts ← repository_tokens ms
  ok (t ∷ ts)
