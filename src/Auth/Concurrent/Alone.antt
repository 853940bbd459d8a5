-- ===== src/Auth/Concurrent/Alone.antt =====
-- A login that runs alone, in its steps and at once.
use meme_launchpad_backend.Common.{ℕ, ◌≡◌, refl, String, Bool-cases, inl, inr}
use meme_launchpad_backend.Postgres.Transaction.{Result-cases}
use meme_launchpad_backend.Auth.{SiweConfig, Packages, UserStore, delete_stored}
use meme_launchpad_backend.Auth.Service.{
  AuthState, message, normalize_address, verify_signature, validate_challenge, get_challenge,
  consume, login,
}
use meme_launchpad_backend.Auth.Concurrent.{check, spend}

module _ {U : Type 0} (lib : Packages) (cfg : SiweConfig) (users : UserStore U)
    (prefix : String) where
  consume-left :
      (clock : ℕ → ℕ) (b : String) (st : AuthState U)
      → (consume lib cfg users clock b st).1.challenges
        ≡ (delete_stored (clock 3) b st.challenges).1
  unfolding consume
  consume-left clock b st = elim (Result-cases (delete_stored (clock 3) b st.challenges).0) [
    | inr (e, bad) ↦ rw (bad, consume) refl
    | inl (u, good) ↦ rw (good, consume) refl
  ]

  -- the check and the deletion one after the other leave the challenges that the whole login leaves
  login-steps :
      (clock : ℕ → ℕ) (address signature : String) (st : AuthState U)
      → (login lib cfg users prefix clock address signature st).1.challenges
        ≡ (spend lib cfg prefix
            (clock 3)
            (check lib cfg prefix clock address signature st.challenges)
            st.challenges).1
  unfolding login check spend
  login-steps clock address signature st = elim (Result-cases (normalize_address lib address)) [
    | inr (e, bad) ↦ rw (bad, login, check) refl
    | inl (b, good) ↦
        elim (Result-cases (get_challenge lib cfg (clock 0) (clock 1) b st.challenges)) [
          | inr (e, missing) ↦ rw (good, login, check) (rw (missing, login, check) refl)
          | inl (c, found) ↦ elim (Result-cases (validate_challenge lib cfg (clock 2) c b)) [
            | inr (e, invalid) ↦
                rw (good, login, check) (rw (found, login, check) (rw (invalid, login, check) refl))
            | inl (u, valid) ↦
                elim (Bool-cases (verify_signature lib prefix b (message lib c) signature)) [
                  | inl signed ↦
                      rw (good, login, check)
                        (rw (found, login, check)
                          (rw (valid, login, check)
                            (rw (signed, login, check) (consume-left clock b st))))
                  | inr forged ↦
                      rw (good, login, check)
                        (rw (found, login, check)
                          (rw (valid, login, check) (rw (forged, login, check) refl)))
                ]
          ]
        ]
  ]
