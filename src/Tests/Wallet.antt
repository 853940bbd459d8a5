-- ===== src/Tests/Wallet.antt =====
-- The theorems about wallet login at concrete inputs.
use meme_launchpad_backend.Common.{
  ℕ, ◌≤◌, ◌+◌, ◌*◌, ◌<◌, ◌≡◌, refl, true, false, some, none, List, [], ◌∷◌, ◌++◌, arith, ◌==◌,
  nat_eq, string_eq, if◌then◌else◌,
}
use meme_launchpad_backend.Postgres.Table.{lookup, upsert, delete_row}
use meme_launchpad_backend.Postgres.Transaction.{ok, err}
use meme_launchpad_backend.Auth.{
  second, User, LoginResult, SignMessage, SiweConfig, SiweChallenge, Packages, UserStore,
  err_invalid_nonce, save_challenge, get_stored, delete_stored, valid_nonce,
}
use meme_launchpad_backend.Auth.Service.{
  AuthState, message, normalize_address, verify_signature, is_ours, is_well_formed, has_uri,
  is_current, validate_challenge, get_challenge, new_challenge, request_message, issue_token,
  find_or_create, admit, consume, login,
}
use meme_launchpad_backend.Auth.Login.{login-checks, login_only_once}
use meme_launchpad_backend.Auth.Concurrent.{
  requested, arrived, looked, spent, Event, Server, check, look, look_at, spend, spend_at, step,
  run,
}
use meme_launchpad_backend.Auth.Concurrent.Spending.{spent_for, stored_for, issued_for, run-budget}
use meme_launchpad_backend.Auth.RoundTrip.{IsConfigured, requested_login-admitted}
use meme_launchpad_backend.Tests.{small, noon}

abbrev eight : List ℕ
eight = 1 ∷ 2 ∷ 3 ∷ 4 ∷ 5 ∷ 6 ∷ 7 ∷ 8 ∷ []

-- 65 bytes, of which the last is 27
abbrev signature_bytes : List ℕ
signature_bytes =
    eight ++ (eight ++ (eight ++ (eight ++ (eight ++ (eight ++ (eight ++ (eight ++ (27 ∷ []))))))))

abbrev pub packages : Packages
packages = record {
  is_hex_address = λ a. a == "0xAB";
  checksum_hex = small;
  decode_hex = λ s. if s == "0xsig" then some signature_bytes else none;
  signer_of = λ text sig. some "0xab";
  equal_fold = λ a b. a == b;
  parse_request_uri = λ u. some (true, "meme.example");
  contains_any = λ s chars. false;
  rfc3339 = λ t. "2023-11-14T22:13:20Z";
  decimal = λ n. "97";
  sign_claims = λ claims. ok "jwt";
}

abbrev pub siwe : SiweConfig
siwe = record { domain = "meme.example"; uri = "https://meme.example"; chain_id = 97 }

abbrev pub wallet_user : User
wallet_user = record { id = 1; user_address = "0xab" }

abbrev one_user : UserStore ℕ
one_user = record { find_by_address = λ a u. ok none; create = λ a name u. (ok wallet_user, u + 1) }

abbrev pub begun : ℕ
begun = noon * second

abbrev pub clock : ℕ → ℕ
clock _ = begun + second

abbrev pub asked : SiweChallenge
asked = new_challenge packages siwe "0123456789abcdef" begun "0xab"

abbrev waiting : AuthState ℕ
waiting = record { challenges = ("0xab", asked) ∷ []; users = 0 }

abbrev pub admitted : LoginResult
admitted = record { token = "jwt"; user = wallet_user; expires = 1700086401 }

wallet_login_succeeds :
    (login packages siwe one_user "" clock "0xAB" "0xsig" waiting).0 ≡ ok admitted
unfolding login consume admit find_or_create issue_token normalize_address get_challenge get_stored
    delete_stored lookup validate_challenge is_ours is_well_formed has_uri is_current valid_nonce
    new_challenge verify_signature message
wallet_login_succeeds = refl

login-checks_example :
    (c : SiweChallenge) × (lookup "0xab" waiting.challenges ≡ some c)
    × (c.address ≡ "0xab")
    × (c.domain ≡ "meme.example")
    × (c.uri ≡ "https://meme.example")
    × (c.chain_id ≡ 97)
    × (begun + second < c.expiration_time)
    × (verify_signature packages "" "0xab" (message packages c) "0xsig" ≡ true)
login-checks_example =
    login-checks packages siwe one_user "" clock "0xAB" "0xsig" waiting admitted
      wallet_login_succeeds

login_only_once_example :
    (login packages siwe one_user "" clock "0xAB" "0xsig"
      (login packages siwe one_user "" clock "0xAB" "0xsig" waiting).1).0
    ≡ err err_invalid_nonce
login_only_once_example =
    login_only_once packages siwe one_user "" clock clock "0xAB" "0xAB" "0xsig" "0xsig" waiting
      admitted wallet_login_succeeds refl refl

siwe-IsConfigured : IsConfigured packages siwe
siwe-IsConfigured = record {
  host = "meme.example";
  parsed = refl;
  some_host = refl;
  no_space = refl;
}

nonce_is_valid : valid_nonce "0123456789abcdef" ≡ true
unfolding valid_nonce
nonce_is_valid = refl

abbrev answer : SignMessage
answer = record {
  text = message packages asked;
  sign_nonce = "0123456789abcdef";
  sign_expires = 1700000300;
}

request_answers :
    request_message packages siwe "0123456789abcdef" begun "0xAB" []
    ≡ (ok answer, ("0xab", asked) ∷ [])
unfolding request_message new_challenge save_challenge upsert normalize_address
request_answers = refl

asked_text_verifies : verify_signature packages "" "0xab" answer.text "0xsig" ≡ true
unfolding verify_signature
asked_text_verifies = refl

requested_login-admitted_example :
    (login packages siwe one_user "" clock "0xAB" "0xsig" waiting).0
    ≡ (admit packages siwe one_user clock "0xab" 0).0
requested_login-admitted_example =
    requested_login-admitted packages siwe one_user "" "0123456789abcdef" "0xAB" "0xsig" answer
      begun clock [] (("0xab", asked) ∷ []) 0 siwe-IsConfigured nonce_is_valid refl request_answers
      (λ i h. (omega arith, omega arith)) asked_text_verifies

abbrev calling : Server
calling = record { challenges = ("0xab", asked) ∷ []; sessions = [] }

-- two logins that check one signature, of which the second deletes a challenge that came in between
abbrev overlap : List Event
overlap =
    arrived "0xAB" "0xsig"
    ∷ arrived "0xAB" "0xsig"
    ∷ looked 0 clock
    ∷ looked 1 clock
    ∷ spent 0 (begun + second)
    ∷ requested "fedcba9876543210" begun "0xAB"
    ∷ spent 1 (begun + second)
    ∷ []

both_admitted : spent_for "0xab" (run packages siwe "" overlap calling).sessions ≡ 2
unfolding run step look_at look check spend_at spend spent_for request_message new_challenge
    save_challenge upsert lookup delete_stored delete_row get_challenge get_stored
    validate_challenge is_ours is_well_formed has_uri is_current valid_nonce verify_signature
    message normalize_address
both_admitted = refl

run-budget_example :
    spent_for "0xab" (run packages siwe "" overlap calling).sessions
      + stored_for "0xab" (run packages siwe "" overlap calling).challenges
    ≤ spent_for "0xab" []
      + stored_for "0xab" (("0xab", asked) ∷ [])
      + issued_for packages siwe "" "0xab" overlap
run-budget_example = run-budget packages siwe "" "0xab" overlap calling
