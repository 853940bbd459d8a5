-- ===== src/Tests/Accounts.antt =====
-- The theorems about the accounts of wallets and the store over Redis at concrete inputs.
use meme_launchpad_backend.Common.{
  ◌&&◌, ◌≤◌, some-injective, Bool, String, sym, eq_iff, Bool-cases, inl, inr, ◌+◌, ◌*◌, ◌≡◌, refl,
  ap, true, false, some, List, [], ◌∷◌, arith, ◌==◌, nat_eq, string_eq, if◌then◌else◌,
}
use meme_launchpad_backend.Postgres.Table.{lookup, upsert, delete_row}
use meme_launchpad_backend.Postgres.Transaction.{Result, msg, ok, err}
use meme_launchpad_backend.Auth.{
  second, SiweChallenge, save_challenge, get_stored, delete_stored, valid_nonce,
}
use meme_launchpad_backend.Auth.Service.{
  AuthState, message, normalize_address, verify_signature, is_ours, is_well_formed, has_uri,
  is_current, validate_challenge, get_challenge, new_challenge, issue_token, find_or_create, admit,
  consume, login,
}
use meme_launchpad_backend.Auth.Users.{Users, find_user, create_user, user_repository}
use meme_launchpad_backend.Auth.Users.Accounts.{Later, at_once, outage, login-accounts}
use meme_launchpad_backend.Auth.Users.Keeps.{IsNumbered}
use meme_launchpad_backend.Auth.RedisStore.{millisecond}
use meme_launchpad_backend.Auth.RedisStore.Entries.{calm}
use meme_launchpad_backend.Auth.RedisStore.Refines.{
  Call, ask, put, drop, AreTimely, memory_replies, redis_replies, redis_replies-memory_replies,
}
use meme_launchpad_backend.Tests.{small}
use meme_launchpad_backend.Tests.Wallet.{packages, siwe, wallet_user, begun, clock, asked, admitted}

abbrev no_users : Users
no_users = record { rows = []; next_id = 1; reachable = true }

-- the first login of a wallet
abbrev newcomer : AuthState Users
newcomer = record { challenges = ("0xab", asked) ∷ []; users = no_users }

abbrev one_wallet : Users
one_wallet = record { rows = ("0xab", wallet_user) ∷ []; next_id = 2; reachable = true }

-- and its second one, after a failure of the database
abbrev visitor : AuthState Users
visitor = record { challenges = ("0xab", asked) ∷ []; users = one_wallet }

no_users-IsNumbered : IsNumbered no_users
unfolding lookup
no_users-IsNumbered = record { below = λ k p h. absurd cc; single = λ j k p q g h same. absurd cc }

first_login_succeeds :
    login packages siwe (user_repository small) "" clock "0xAB" "0xsig" newcomer
    ≡ (ok admitted, record { challenges = []; users = one_wallet })
unfolding login consume admit find_or_create issue_token normalize_address get_challenge get_stored
    delete_stored lookup validate_challenge is_ours is_well_formed has_uri is_current valid_nonce
    new_challenge verify_signature message find_user create_user delete_row
first_login_succeeds = refl

second_login_succeeds :
    (login packages siwe (user_repository small) "" clock "0xAB" "0xsig" visitor).0 ≡ ok admitted
unfolding login consume admit find_or_create issue_token normalize_address get_challenge get_stored
    delete_stored lookup validate_challenge is_ours is_well_formed has_uri is_current valid_nonce
    new_challenge verify_signature message find_user create_user delete_row
second_login_succeeds = refl

after_failure :
    Later small packages siwe
      (login packages siwe (user_repository small) "" clock "0xAB" "0xsig" newcomer).1.users
      one_wallet
after_failure = rw first_login_succeeds (outage true (outage false at_once))

login-accounts_example : (wallet_user.id == wallet_user.id) ≡ (small "0xab" == small "0xab")
login-accounts_example =
    login-accounts small packages siwe "" clock clock "0xAB" "0xAB" "0xsig" "0xsig" newcomer visitor
      admitted admitted no_users-IsNumbered (ap (λ o. o.0) first_login_succeeds) after_failure
      second_login_succeeds

-- JSON of one challenge
abbrev is_asked : SiweChallenge → Bool
is_asked c =
    c.domain == asked.domain
    && (c.address == asked.address
        && (c.statement == asked.statement
            && (c.uri == asked.uri
                && (c.version == asked.version
                    && (c.chain_id == asked.chain_id
                        && (c.nonce == asked.nonce
                            && (c.issued_at == asked.issued_at
                                && c.expiration_time == asked.expiration_time)))))))

abbrev marshal : SiweChallenge → Result String
marshal c = if is_asked c then ok "{}" else err (msg "json")

abbrev unmarshal : String → Result SiweChallenge
unmarshal text = ok asked

both_true : (a b : Bool) → (a && b) ≡ true → (a ≡ true) × (b ≡ true)
both_true a b h = ground arith

asked_again : (c : SiweChallenge) → is_asked c ≡ true → c ≡ asked
asked_again c h =
    let (a, h1) = both_true _ _ h in
    let (b, h2) = both_true _ _ h1 in
    let (d, h3) = both_true _ _ h2 in
    let (e, h4) = both_true _ _ h3 in
    let (f, h5) = both_true _ _ h4 in
    let (g, h6) = both_true _ _ h5 in
    let (i, h7) = both_true _ _ h6 in
    let (j, k) = both_true _ _ h7 in
    let domain = (eq_iff c.domain asked.domain).0 a in
    let address = (eq_iff c.address asked.address).0 b in
    let statement = (eq_iff c.statement asked.statement).0 d in
    let uri = (eq_iff c.uri asked.uri).0 e in
    let version = (eq_iff c.version asked.version).0 f in
    let chain_id = (nat_eq.same_iff c.chain_id asked.chain_id).0 g in
    let nonce = (eq_iff c.nonce asked.nonce).0 i in
    let issued_at = (nat_eq.same_iff c.issued_at asked.issued_at).0 j in
    let expiration_time = (nat_eq.same_iff c.expiration_time asked.expiration_time).0 k in cc

unmarshal-marshal :
    (c : SiweChallenge) (text : String) → marshal c ≡ ok text → unmarshal text ≡ ok c
unmarshal-marshal c text h = elim (Bool-cases (is_asked c)) [
  | inl same ↦ ap ok (sym (asked_again c same))
  | inr other ↦ let k = rw other at h in absurd cc
]

-- a challenge that is saved, shown twice and deleted
abbrev visit : List Call
visit =
    put begun "0xab" asked (300 * second)
    ∷ ask (begun + second) (begun + second) "0xab"
    ∷ drop (begun + second) "0xab"
    ∷ ask (begun + second) (begun + second) "0xab"
    ∷ []

still_ahead :
    (c : SiweChallenge) → some asked ≡ some c → begun + second + millisecond ≤ c.expiration_time
unfolding new_challenge
still_ahead c h = let same = ap (λ x. x.expiration_time) (some-injective h) in omega (arith, same)

visit-AreTimely : AreTimely packages siwe "meme:siwe:" marshal unmarshal visit []
unfolding save_challenge upsert lookup delete_stored delete_row new_challenge
visit-AreTimely = (
  (omega arith, omega arith, ("{}", refl)),
  (
    (omega arith, λ c h. inl (still_ahead c h)),
    (still_ahead, ((omega arith, λ c h. absurd cc), tt)),
  ),
)

redis_replies-memory_replies_example :
    redis_replies packages siwe "meme:siwe:" marshal unmarshal visit (calm [])
    ≡ memory_replies packages siwe "meme:siwe:" marshal unmarshal visit []
redis_replies-memory_replies_example =
    redis_replies-memory_replies packages siwe "meme:siwe:" marshal unmarshal unmarshal-marshal
      visit visit-AreTimely
