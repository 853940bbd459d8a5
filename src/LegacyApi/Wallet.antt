-- ===== src/LegacyApi/Wallet.antt =====
-- Wallet login of the legacy API: apps/api/internal/logic/user (getsignmsglogic.go, walletloginlogic.go,
-- refreshtokenlogic.go) and apps/api/internal/middleware/authmiddleware.go. A time is a
-- number of seconds.
pub mod Login
pub mod Refresh
pub mod Middleware
pub mod Session
use Prim.Native.Char.{char}
use Prim.Native.String
use meme_launchpad_backend.Common.{
  ℕ, ◌+◌, ◌-◌, ◌<◌, String, Bool, true, false, not, ◌||◌, Option, none, some, List, [], ◌∷◌, length,
  ltb, leb, ◌==◌, nat_eq, string_eq, if◌then◌else◌,
}
use meme_launchpad_backend.Fallible.{Error, msg, Result, ok, err}
use meme_launchpad_backend.Go.Strconv.{itoa}
use meme_launchpad_backend.Go.Strings.{◌<>◌, split_first}
use meme_launchpad_backend.Go.Hex.{encode_hex}
use meme_launchpad_backend.Go.Bytes.{utf8, update_at}
use meme_launchpad_backend.Postgres.Table.{Table, lookup, upsert}
use meme_launchpad_backend.Postgres.Transaction.{next_fault}
use meme_launchpad_backend.LegacyApi.Redis.{Redis, next, redis_get, redis_set, redis_del}
use meme_launchpad_backend.LegacyApi.{Packages}
use meme_launchpad_backend.LegacyApi.Signer.{lowered}

-- `types.Response`: a code with a message, or 200 with data
pub data Response (A : Type 0) : Type 0 where
  failure : ℕ → String → Response A
  success : A → Response A

pub record User : Type 0 where
  pub id : ℕ
  pub address : String
  pub username : String
  pub nonce : String

-- the claims of a token, those that may be missing as an Option
pub record Claims : Type 0 where
  pub user_id : Option ℕ
  pub address : Option String
  pub kind : Option String
  pub exp : ℕ
  pub iat : ℕ

pub record LoginResponse : Type 0 where
  pub token : String
  pub refresh_token : String
  pub expires_in : ℕ
  pub user : User

pub record GetSignMsgResponse : Type 0 where
  pub message : String
  pub nonce : String
  pub expiry : ℕ

pub record AuthConfig : Type 0 where
  pub access_secret : String
  pub access_expire : ℕ
  pub refresh_expire : ℕ

-- `UserModel` over a state; `none` is pgx.ErrNoRows, and `create` fills in the row's id.
pub record UserModel (U : Type 0) : Type 0 where
  pub find_by_address : String → U → Result (Option User)
  pub create : User → U → Result User × U
  pub update_nonce : String → String → U → U

-- hexutil.Decode, and JWT: `parse_jwt` at a time is `none` for an error or a token that is not valid.
pub record Tokens : Type 0 where
  pub hex_decode : String → Option (List ℕ)
  pub sign_jwt : Claims → String → Result String
  pub parse_jwt : ℕ → String → String → Option Claims

pub record State (U : Type 0) : Type 0 where
  pub redis : Redis
  pub users : U

abbrev pub cache_key : String → String
cache_key address = "sign_msg:" <> address

unfoldable pub sign_message : String → String → String
sign_message address nonce =
    "Welcome to Coinroll!\n\nClick to sign in and accept the Terms of Service.\n\nThis request will not trigger a blockchain transaction or cost any gas fees.\n\nWallet address:\n"
    <> address <> "\n\nNonce:\n" <> nonce

-- strings.HasPrefix(s, "0x")
abbrev pub has_0x : String → Bool
has_0x s = String.slice s 0 2 == "0x"

unfoldable pub is_address : String → Bool
unfolding utf8
is_address a = if not (length (utf8 a) == 42) then false else has_0x a

unfoldable pub shorten_address : String → String
shorten_address a =
    if ltb (String.len a) 10
    then a
    else String.slice a 0 6 <> "..." <> String.slice a (String.len a - 4) (String.len a)

abbrev pub personal_prefix : String
personal_prefix = String.◌∷◌ (char 25 tt) "Ethereum Signed Message:\n"

module _ {Key : Type 0} (lib : Packages Key) (tokens : Tokens) where
  unfoldable pub verify_signature : String → String → String → Bool
  unfolding utf8 itoa
  verify_signature address message signature =
      let prefixed = personal_prefix <> itoa (length (utf8 message)) <> message in
      let hash = lib.keccak256 (utf8 prefixed) in
      elim (tokens.hex_decode signature) [
        | none ↦ false
        | some bytes ↦
            if not (length bytes == 65)
            then false
            else elim (lib.sig_to_address hash (update_at 64 lowered bytes)) [
              | err _ ↦ false
              | ok recovered ↦ lib.equal_fold (lib.address_hex recovered) address
            ]
      ]

  -- `GetSignMsg`, with the bytes of the random source
  unfoldable pub get_sign_msg :
      ℕ → Result (List ℕ) → String → Redis → Response GetSignMsgResponse × Redis
  unfolding is_address encode_hex sign_message redis_set
  get_sign_msg now random requested r =
      let address = lib.to_lower requested in
      if not (is_address address) then (failure 400 "invalid address format", r) else elim random [
        | err _ ↦ (failure 500 "failed to generate nonce", r)
        | ok bytes ↦
            let nonce = encode_hex bytes in
            (
              success (record {
                message = sign_message address nonce;
                nonce = nonce;
                expiry = now + 300;
              }),
              redis_set now (cache_key address) nonce 300 r,
            )
      ]

  module _ (cfg : AuthConfig) where
    -- the readings of the clock for the two times of a token
    unfoldable pub generate_access_token : ℕ → ℕ → ℕ → String → Result String
    generate_access_token now later user_id address =
        tokens.sign_jwt
          (record {
            user_id = some user_id;
            address = some address;
            kind = none;
            exp = now + cfg.access_expire;
            iat = later;
          })
          cfg.access_secret

    unfoldable pub generate_refresh_token : ℕ → ℕ → ℕ → String → Result String
    generate_refresh_token now later user_id address =
        tokens.sign_jwt
          (record {
            user_id = some user_id;
            address = some address;
            kind = some "refresh";
            exp = now + cfg.refresh_expire;
            iat = later;
          })
          cfg.access_secret

    -- the two tokens, with the message of the failure for each
    unfoldable pub issue : (ℕ → ℕ) → ℕ → String → String → String → Response (String × String)
    unfolding generate_access_token generate_refresh_token
    issue clock user_id address no_token no_refresh =
        elim (generate_access_token (clock 0) (clock 1) user_id address) [
          | err _ ↦ failure 500 no_token
          | ok access ↦ elim (generate_refresh_token (clock 2) (clock 3) user_id address) [
            | err _ ↦ failure 500 no_refresh
            | ok refresh ↦ success (access, refresh)
          ]
        ]

    unfoldable pub refresh_token : ℕ → (ℕ → ℕ) → String → Response (String × String)
    unfolding issue
    refresh_token now clock refresh = elim (tokens.parse_jwt now refresh cfg.access_secret) [
      | none ↦ failure 401 "invalid or expired refresh token"
      | some claims ↦ elim claims.kind [
        | none ↦ failure 401 "invalid token type"
        | some kind ↦
            if not (kind == "refresh")
            then failure 401 "invalid token type"
            else elim claims.user_id [
              | none ↦ failure 401 "invalid user id in token"
              | some user_id ↦ elim claims.address [
                | none ↦ failure 401 "invalid address in token"
                | some address ↦
                    issue clock user_id address "failed to generate new token"
                      "failed to generate new refresh token"
              ]
            ]
      ]
    ]
