-- ===== src/Gateway.antt =====
-- The transports of the rebuild: REST in app-rebuild/internal/httpapi/server.go, gRPC servers in
-- app-rebuild/internal/grpcapi, and in app-rebuild/internal/grpcclient the adapters by which REST uses
-- these servers. The interfaces are records over the state of the services; the parser of a token reads
-- no state. A time is a number of nanoseconds since 1970, or of seconds where the code says Unix.
pub mod Messages
pub mod Server
pub mod Client
pub mod Http
pub mod Parity
pub mod Guard
pub mod Repository
use meme_launchpad_backend.Common.{
  ℕ, zero, suc, ◌+◌, ◌-◌, ◌%◌, ◌^◌, String, Option, none, some, List, [], ltb, ◌==◌, string_eq,
  if◌then◌else◌,
}
use meme_launchpad_backend.Fallible.{Error, msg, wrap, Result}
use meme_launchpad_backend.Go.Strconv.{ℤ, pos, negsuc}
use meme_launchpad_backend.Go.Strings.{◌<>◌, cut_prefix}
use meme_launchpad_backend.TokenCreation.{Request, Response}
use meme_launchpad_backend.Upload.{PresignResult}
use meme_launchpad_backend.Auth.{SignMessage, LoginResult}

-- `repository.Token`
pub record Token : Type 0 where
  pub id : ℕ
  pub name : String
  pub symbol : String
  pub logo : String
  pub description : Option String
  pub contract_address : String
  pub creator_address : String
  pub launch_mode : ℤ
  pub bnb_current : String
  pub bnb_target : String
  pub total_supply : String
  pub status : ℤ
  pub created_at : ℕ

-- `auth.Claims` of a token that may lack the registered claims
pub record Claims : Type 0 where
  pub user_id : ℕ
  pub address : String
  pub issued_at : Option ℕ
  pub expires_at : Option ℕ

-- a slice: `none` is nil
abbrev pub Slice : Type 0 → Type 0
Slice A = Option (List A)

abbrev pub items_of : {A : Type 0} → Slice A → List A
items_of none = []
items_of (some items) = items

-- `List` with a limit and an offset, and `FindByAddress`, where `none` is pgx.ErrNoRows
pub record TokenReader : Type 0 where
  pub list : ℤ → ℤ → Result (Slice Token)
  pub find_by_address : String → Result (Option Token)

-- The first argument is the bearer token that the context carries.
pub record TokenCreator (S : Type 0) : Type 0 where
  pub create : Option String → Request → S → Result Response × S

pub record Presigner (S : Type 0) : Type 0 where
  pub presign : Option String → String → String → ℤ → S → Result PresignResult × S
  pub confirm : Option String → S → Result (Unit {0}) × S

pub record Authenticator (S : Type 0) : Type 0 where
  pub request_message : String → S → Result SignMessage × S
  pub login : String → String → S → Result LoginResult × S
  pub parse_token : String → Result Claims

-- `int32(n)` of an int
unfoldable pub to_int32 : ℤ → ℤ
to_int32 (pos n) = let m = n % 2 ^ 32 in if ltb m (2 ^ 31) then pos m else negsuc (2 ^ 32 - 1 - m)
to_int32 (negsuc n) =
    let m = n % 2 ^ 32 in if ltb m (2 ^ 31) then negsuc m else pos (2 ^ 32 - 1 - m)

-- the number, if it is not below one
abbrev pub positive : ℤ → Option ℕ
positive (pos zero) = none
positive (pos (suc n)) = some (suc n)
positive (negsuc n) = none

-- the token behind "Bearer ", if there is one
unfoldable pub bearer_token : String → Option String
unfolding cut_prefix
bearer_token header = elim (cut_prefix "Bearer " header) [
  | none ↦ none
  | some t ↦ if t == "" then none else some t
]
