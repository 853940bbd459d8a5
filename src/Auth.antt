-- ===== src/Auth.antt =====
-- Wallet login of the rebuild: app-rebuild/internal/auth/service.go over the store of memory_store.go.
-- A time is a number of nanoseconds since 1970; `clock` gives the readings of `time.Now` within one
-- call, in their order. go-ethereum, net/url, time formats and JWT are a parameter, and so is the
-- `UserStore`.
pub mod Service
pub mod Login
pub mod RoundTrip
pub mod Users
pub mod RedisStore
pub mod Concurrent
use Prim.Native.Char.{Char, code}
use Prim.Native.String
use text.Mathlib.Text.{find?}
use meme_launchpad_backend.Common.{
  ℕ, ◌+◌, ◌-◌, ◌*◌, String, Bool, true, false, not, ◌&&◌, ◌||◌, Option, none, some, List, [], ◌∷◌,
  length, ltb, leb, ◌==◌, nat_eq, string_eq, if◌then◌else◌,
}
use meme_launchpad_backend.Postgres.Table.{Table, lookup, upsert, delete_row}
use meme_launchpad_backend.Postgres.Transaction.{Error, msg, Result, ok, err, wrapped}

abbrev pub err_invalid_address : Error
err_invalid_address = msg "invalid wallet address"

abbrev pub err_invalid_signature : Error
err_invalid_signature = msg "invalid wallet signature"

abbrev pub err_invalid_nonce : Error
err_invalid_nonce = msg "nonce is missing, expired, or already used"

abbrev pub err_invalid_siwe : Error
err_invalid_siwe = msg "invalid SIWE challenge"

abbrev pub second : ℕ
second = 1000000000

-- `repository.User`, in the fields that login reads
pub record User : Type 0 where
  pub id : ℕ
  pub user_address : String

pub record Claims : Type 0 where
  pub user_id : ℕ
  pub claims_address : String
  pub expires_at : ℕ
  pub issued_at : ℕ

pub record SignMessage : Type 0 where
  pub text : String
  pub sign_nonce : String
  pub sign_expires : ℕ

pub record LoginResult : Type 0 where
  pub token : String
  pub user : User
  pub expires : ℕ

pub record SiweConfig : Type 0 where
  pub domain : String
  pub uri : String
  pub chain_id : ℕ

pub record SiweChallenge : Type 0 where
  pub domain : String
  pub address : String
  pub statement : String
  pub uri : String
  pub version : String
  pub chain_id : ℕ
  pub nonce : String
  pub issued_at : ℕ
  pub expiration_time : ℕ

-- What the service calls of other packages: `common.IsHexAddress`, `common.HexToAddress(a).Hex()`,
-- `hexutil.Decode`, the address that `SigToPub` finds for the Keccak hash of a text, `EqualFold`,
-- `url.ParseRequestURI` as (is absolute, host), `strings.ContainsAny`, the RFC 3339 format, `%d`, and
-- the signed JWT.
pub record Packages : Type 0 where
  pub is_hex_address : String → Bool
  pub checksum_hex : String → String
  pub decode_hex : String → Option (List ℕ)
  pub signer_of : String → List ℕ → Option String
  pub equal_fold : String → String → Bool
  pub parse_request_uri : String → Option (Bool × String)
  pub contains_any : String → String → Bool
  pub rfc3339 : ℕ → String
  pub decimal : ℕ → String
  pub sign_claims : Claims → Result String

-- `UserStore` over a state; `none` is pgx.ErrNoRows.
pub record UserStore (U : Type 0) : Type 0 where
  pub find_by_address : String → U → Result (Option User)
  pub create : String → String → U → Result User × U

-- `MemoryChallengeStore` is a map by address.
abbrev pub Challenges : Type 0
Challenges = Table String SiweChallenge

unfoldable pub save_challenge : String → SiweChallenge → Challenges → Challenges
save_challenge a c t = upsert a c (λ _. c) t

unfoldable pub get_stored : ℕ → String → Challenges → Result SiweChallenge
get_stored now a t = elim (lookup a t) [
  | none ↦ err err_invalid_nonce
  | some c ↦ if ltb c.expiration_time now then err err_invalid_nonce else ok c
]

unfoldable pub delete_stored : ℕ → String → Challenges → Result (Unit {0}) × Challenges
delete_stored now a t = elim (lookup a t) [
  | none ↦ (err err_invalid_nonce, t)
  | some c ↦
      if ltb c.expiration_time now then (err err_invalid_nonce, t) else (ok tt, delete_row a t)
]

-- the characters that `validNonce` admits, by their code points
abbrev pub is_alphanumeric : ℕ → Bool
is_alphanumeric n = leb 97 n && leb n 122 || (leb 65 n && leb n 90 || leb 48 n && leb n 57)

unfoldable pub all_alphanumeric : String → Bool
all_alphanumeric String.[] = true
all_alphanumeric (String.◌∷◌ c s) = is_alphanumeric (code c) && all_alphanumeric s

unfoldable pub valid_nonce : String → Bool
unfolding all_alphanumeric
valid_nonce nonce = if ltb (String.len nonce) 8 then false else all_alphanumeric nonce

unfoldable pub shorten_address : String → String
shorten_address a =
    String.◌++◌ (String.slice a 0 6)
      (String.◌++◌ "..." (String.slice a (String.len a - 4) (String.len a)))
