-- ===== src/Tests/Visitor.antt =====
-- The theorems about wallet login in the legacy API at concrete inputs.
use meme_launchpad_backend.Common.{
  ℕ, ◌+◌, ◌<◌, ◌≡◌, refl, String, true, false, none, some, Option, [], ◌∷◌, ◌++◌, ltb, arith, ◌==◌,
  ◌&&◌, nat_eq, string_eq, if◌then◌else◌, eq_iff,
}
use meme_launchpad_backend.Fallible.{msg, Result, ok, err}
use meme_launchpad_backend.Go.Strings.{◌<>◌}
use meme_launchpad_backend.Postgres.Table.{lookup}
use meme_launchpad_backend.LegacyApi.{Packages}
use meme_launchpad_backend.LegacyApi.Wallet.{
  success, User, Claims, LoginResponse, AuthConfig, UserModel, Tokens, State, cache_key,
  sign_message, is_address, verify_signature, issue,
}
use meme_launchpad_backend.LegacyApi.Wallet.Session.{welcome, wallet_login}
use meme_launchpad_backend.LegacyApi.Wallet.Middleware.{authenticate}
use meme_launchpad_backend.LegacyApi.Wallet.Login.{wallet_login-checks, wallet_login-replayed}
use meme_launchpad_backend.LegacyApi.Wallet.Refresh.{refresh-authenticates}
use meme_launchpad_backend.Tests.Launch.{packages, sixty_four}

abbrev account : String
account = "0xabababababababababababababababababababab"

abbrev library : Packages ℕ
library = record packages {
  address_hex = λ a. account;
  to_lower = λ s. if s == "Bearer" then "bearer" else s;
}

-- Tokens for user 1 alone, whose access token ends at 160 and whose refresh token ends at 700.
abbrev signed_as : Option ℕ → Option String → Option String → ℕ → ℕ → Result String
signed_as (some user_id) (some address) (some kind) exp iat =
    if user_id == 1 && (address == account && (kind == "refresh" && (exp == 700 && iat == 100)))
    then ok "refresh"
    else err (msg "no key")
signed_as (some user_id) (some address) none exp iat =
    if user_id == 1 && (address == account && (exp == 160 && iat == 100))
    then ok "access"
    else err (msg "no key")
signed_as _ _ _ _ _ = err (msg "no key")

abbrev access_claims : Claims
access_claims = record {
  user_id = some 1;
  address = some account;
  kind = none;
  exp = 160;
  iat = 100;
}

abbrev parsed : ℕ → String → Option Claims
parsed now token =
    if token == "refresh"
    then (if ltb now 700
        then some (record access_claims { kind = some "refresh"; exp = 700 })
        else none)
    else if token == "access"
    then (if ltb now 160 then some access_claims else none)
    else none

live :
    (claims : Claims) (now until : ℕ)
    → now < until
    → (if ltb now until then some claims else none) ≡ some claims
live claims now until early = ground arith

parsed-signed_as :
    (u : Option ℕ) (a k : Option String) (e i : ℕ) (token : String) (now : ℕ)
    → signed_as u a k e i ≡ ok token
    → now < e
    → parsed now token ≡ some (record { user_id = u; address = a; kind = k; exp = e; iat = i })
parsed-signed_as (some u) (some a) (some k) e i token now h early =
    let its : token ≡ "refresh" = grind arith in
    let whose : u ≡ 1 = grind arith in
    let holder : a ≡ account = (eq_iff a account).0 (grind arith) in
    let marked : k ≡ "refresh" = (eq_iff k "refresh").0 (grind arith) in
    let ends : e ≡ 700 = grind arith in
    let begins : i ≡ 100 = grind arith in
    rw (its, whose, holder, marked, ends, begins)
      (live (record access_claims { kind = some "refresh"; exp = 700 }) now 700 (grind arith))
parsed-signed_as (some u) (some a) none e i token now h early =
    let its : token ≡ "access" = grind arith in
    let whose : u ≡ 1 = grind arith in
    let holder : a ≡ account = (eq_iff a account).0 (grind arith) in
    let ends : e ≡ 160 = grind arith in
    let begins : i ≡ 100 = grind arith in
    rw (its, whose, holder, ends, begins) (live access_claims now 160 (grind arith))
parsed-signed_as none a k e i token now h early = absurd cc
parsed-signed_as (some u) none k e i token now h early = absurd cc

abbrev tokens : Tokens
tokens = record {
  hex_decode = λ s. if s == "0xsig" then some (sixty_four ++ (28 ∷ [])) else none;
  sign_jwt = λ c secret. signed_as c.user_id c.address c.kind c.exp c.iat;
  parse_jwt = λ now token secret. parsed now token;
}

abbrev auth : AuthConfig
auth = record { access_secret = "secret"; access_expire = 60; refresh_expire = 600 }

abbrev clock : ℕ → ℕ
clock _ = 100

refresh-authenticates_example :
    authenticate library tokens "secret" 500 ("Bearer " <> "refresh") ≡ ok (1, account)
unfolding issue
refresh-authenticates_example =
    refresh-authenticates library tokens auth
      (record {
        parses = λ c token now. parsed-signed_as c.user_id c.address c.kind c.exp c.iat token now;
        lowers = refl;
      })
      clock 1 500 account "failed to generate token" "failed to generate refresh token" "access"
      "refresh" refl (omega arith)

abbrev visitor : User
visitor = record { id = 1; address = account; username = "0xabab...abab"; nonce = "0a" }

-- a table of users that counts its writes
abbrev one_user : UserModel ℕ
one_user = record {
  find_by_address = λ a u. ok (some visitor);
  create = λ user u. (ok user, u + 1);
  update_nonce = λ a nonce u. u + 1;
}

-- a Redis that refuses the second call
abbrev flaky : State ℕ
flaky = record {
  redis = record {
    entries = ("sign_msg:" <> account, ("0b", 400)) ∷ [];
    faults = false ∷ true ∷ false ∷ [];
  };
  users = 0;
}

abbrev reply : LoginResponse
reply = record { token = "access"; refresh_token = "refresh"; expires_in = 60; user = visitor }

logs_in :
    (wallet_login library tokens auth one_user 100 clock "0c" account "0xsig" flaky).0
    ≡ success reply
unfolding wallet_login issue
logs_in = refl

wallet_login-checks_example :
    (is_address account ≡ true)
    × (nonce : String) × (until : ℕ) × (lookup (cache_key account) flaky.redis.entries
        ≡ some (nonce, until))
    × (100 < until)
    × (verify_signature library tokens account (sign_message account nonce) "0xsig" ≡ true)
wallet_login-checks_example =
    wallet_login-checks library tokens auth one_user 100 clock "0c" account "0xsig" flaky reply
      logs_in

wallet_login-replayed_example :
    let st' = (wallet_login library tokens auth one_user 100 clock "0c" account "0xsig" flaky).1 in
    (wallet_login library tokens auth one_user 300 clock "0d" account "0xsig" st').0
    ≡ (welcome library tokens auth one_user clock account "0d" st'.users).0
unfolding lookup
wallet_login-replayed_example =
    wallet_login-replayed library tokens auth one_user 100 300 400 clock clock "0c" "0d" account
      "0xsig" "0b" flaky reply [] logs_in refl refl (omega arith)
