-- ===== src/Auth/Concurrent/Spending.antt =====
-- How many logins the challenges of an address admit when logins and requests interleave.
use meme_launchpad_backend.Common.{
  ℕ, zero, suc, ◌+◌, ◌≤◌, ◌≡◌, refl, ap, String, true, false, Option, none, some, List, [], ◌∷◌,
  ltb, ◌==◌, string_eq, arith, Bool-cases, Option-cases, inl, inr, if◌then◌else◌,
}
use meme_launchpad_backend.Postgres.Table.{lookup, delete_row, lookup-delete_row, lookup-put}
use meme_launchpad_backend.Postgres.Transaction.{Result-cases, ok, err}
use meme_launchpad_backend.Auth.{
  SiweConfig, SiweChallenge, Packages, Challenges, err_invalid_nonce, delete_stored, save_challenge,
}
use meme_launchpad_backend.Auth.Service.{
  message, normalize_address, verify_signature, validate_challenge, get_challenge, request_message,
  new_challenge,
}
use meme_launchpad_backend.Auth.Concurrent.{
  Session, started, checked, consumed, refused, Event, requested, arrived, looked, spent, Server,
  check, look, look_at, spend, spend_at, step, run,
}

-- 1 for a login that has deleted the challenge of the address
abbrev pub has_spent : String → Session → ℕ
has_spent a (started _ _) = 0
has_spent a (checked _ _) = 0
has_spent a (consumed b _) = if b == a then 1 else 0
has_spent a (refused _) = 0

unfoldable pub spent_for : String → List Session → ℕ
spent_for a [] = 0
spent_for a (x ∷ xs) = has_spent a x + spent_for a xs

-- 1 for a challenge that is stored
abbrev pub one_of : Option SiweChallenge → ℕ
one_of none = 0
one_of (some _) = 1

abbrev pub stored_for : String → Challenges → ℕ
stored_for a t = one_of (lookup a t)

one_of-le : (o : Option SiweChallenge) → one_of o ≤ 1
one_of-le none = omega arith
one_of-le (some _) = omega arith

-- a new challenge is one more, or takes the place of one
saved-one :
    (a b : String) (c : SiweChallenge) (t : Challenges)
    → stored_for a (save_challenge b c t) ≤ stored_for a t + (if b == a then 1 else 0)
unfolding save_challenge
saved-one a b c t = elim (Bool-cases (b == a)) [
  | inl same ↦ rw (lookup-put b a c t) (rw same (omega arith))
  | inr other ↦ rw (lookup-put b a c t) (rw other (omega arith))
]

-- the three ends of a deletion
module _ (now : ℕ) (b : String) (t : Challenges) where
  deleted-gone : lookup b t ≡ none → delete_stored now b t ≡ (err err_invalid_nonce, t)
  unfolding delete_stored
  deleted-gone gone = rw (gone, delete_stored) refl

  deleted-late :
      (d : SiweChallenge)
      → lookup b t ≡ some d
      → ltb d.expiration_time now ≡ true
      → delete_stored now b t ≡ (err err_invalid_nonce, t)
  unfolding delete_stored
  deleted-late d there late = rw (there, delete_stored) (rw (late, delete_stored) refl)

  deleted-now :
      (d : SiweChallenge)
      → lookup b t ≡ some d
      → ltb d.expiration_time now ≡ false
      → delete_stored now b t ≡ (ok tt, delete_row b t)
  unfolding delete_stored
  deleted-now d there early = rw (there, delete_stored) (rw (early, delete_stored) refl)

module _ (lib : Packages) (cfg : SiweConfig) (prefix : String) where
  check-unspent :
      (a : String) (clock : ℕ → ℕ) (address signature : String) (t : Challenges)
      → has_spent a (check lib cfg prefix clock address signature t) ≡ 0
  unfolding check
  check-unspent a clock address signature t = elim (Result-cases (normalize_address lib address)) [
    | inr (e, bad) ↦ rw (bad, check) refl
    | inl (b, good) ↦ elim (Result-cases (get_challenge lib cfg (clock 0) (clock 1) b t)) [
      | inr (e, missing) ↦ rw (good, check) (rw (missing, check) refl)
      | inl (c, found) ↦ elim (Result-cases (validate_challenge lib cfg (clock 2) c b)) [
        | inr (e, invalid) ↦ rw (good, check) (rw (found, check) (rw (invalid, check) refl))
        | inl (u, valid) ↦
            elim (Bool-cases (verify_signature lib prefix b (message lib c) signature)) [
              | inl signed ↦
                  rw (good, check) (rw (found, check) (rw (valid, check) (rw (signed, check) refl)))
              | inr forged ↦
                  rw (good, check) (rw (found, check) (rw (valid, check) (rw (forged, check) refl)))
            ]
      ]
    ]
  ]

  look_at-unspent :
      (a : String) (n : ℕ) (clock : ℕ → ℕ) (t : Challenges) (xs : List Session)
      → spent_for a (look_at lib cfg prefix n clock t xs) ≡ spent_for a xs
  unfolding look_at look spent_for
  look_at-unspent a n clock t [] = refl
  look_at-unspent a zero clock t (started address signature ∷ xs) =
      ap (λ k. k + spent_for a xs) (check-unspent a clock address signature t)
  look_at-unspent a zero clock t (checked b c ∷ xs) = refl
  look_at-unspent a zero clock t (consumed b c ∷ xs) = refl
  look_at-unspent a zero clock t (refused e ∷ xs) = refl
  look_at-unspent a (suc n) clock t (x ∷ xs) =
      ap (λ k. has_spent a x + k) (look_at-unspent a n clock t xs)

  -- the deletion of a challenge takes one away for the login that it admits
  spend-balance :
      (a : String) (now : ℕ) (x : Session) (t : Challenges)
      → has_spent a (spend lib cfg prefix now x t).0 + stored_for a (spend lib cfg prefix now x t).1
        ≤ has_spent a x + stored_for a t
  unfolding spend delete_stored
  spend-balance a now (started address signature) t = omega arith
  spend-balance a now (consumed b c) t = omega arith
  spend-balance a now (refused e) t = omega arith
  spend-balance a now (checked b c) t = elim (Option-cases (lookup b t)) [
    | inl gone ↦ rw (deleted-gone now b t gone, spend) (omega arith)
    | inr (d, there) ↦ elim (Bool-cases (ltb d.expiration_time now)) [
      | inl late ↦ rw (deleted-late now b t d there late, spend) (omega arith)
      | inr early ↦ elim (Bool-cases (b == a)) [
        | inr other ↦
            rw (deleted-now now b t d there early, spend)
              (rw (lookup-delete_row b a t) (rw other (omega arith)))
        | inl same ↦
            let here : stored_for a t ≡ 1 =
              ap one_of (rw ((string_eq.same_iff b a).0 same) at there) in
            rw (deleted-now now b t d there early, spend)
              (rw (lookup-delete_row b a t) (rw same (omega (arith, here))))
      ]
    ]
  ]

  spend_at-balance :
      (a : String) (n now : ℕ) (xs : List Session) (t : Challenges)
      → let (ys, left) = spend_at lib cfg prefix n now xs t in
        spent_for a ys + stored_for a left ≤ spent_for a xs + stored_for a t
  unfolding spend_at spent_for
  spend_at-balance a n now [] t = omega arith
  spend_at-balance a zero now (x ∷ xs) t = omega (arith, spend-balance a now x t)
  spend_at-balance a (suc n) now (x ∷ xs) t = omega (arith, spend_at-balance a n now xs t)

  -- 1 for an event that issues a challenge for the address
  unfoldable pub issues : String → Event → ℕ
  unfolding normalize_address
  issues a (requested _ _ address) = elim (normalize_address lib address) [
    | err _ ↦ 0
    | ok b ↦ if b == a then 1 else 0
  ]
  issues a (arrived _ _) = 0
  issues a (looked _ _) = 0
  issues a (spent _ _) = 0

  unfoldable pub issued_for : String → List Event → ℕ
  unfolding issues
  issued_for a [] = 0
  issued_for a (e ∷ es) = issues a e + issued_for a es

  abbrev pub budget : String → Server → ℕ
  budget a s = spent_for a s.sessions + stored_for a s.challenges

  request-balance :
      (a nonce : String) (now : ℕ) (address : String) (t : Challenges)
      → stored_for a (request_message lib cfg nonce now address t).1
        ≤ stored_for a t + issues a (requested nonce now address)
  unfolding request_message issues
  request-balance a nonce now address t = elim (Result-cases (normalize_address lib address)) [
    | inr (e, bad) ↦ rw (bad, request_message, issues) (omega arith)
    | inl (b, good) ↦
        rw (good, request_message, issues) (saved-one a b (new_challenge lib cfg nonce now b) t)
  ]

  step-budget :
      (a : String) (e : Event) (s : Server)
      → budget a (step lib cfg prefix e s) ≤ budget a s + issues a e
  unfolding step issues spent_for
  step-budget a (requested nonce now address) s =
      omega (arith, request-balance a nonce now address s.challenges)
  step-budget a (arrived address signature) s = omega arith
  step-budget a (looked n clock) s =
      omega (arith, look_at-unspent a n clock s.challenges s.sessions)
  step-budget a (spent n now) s = omega (arith, spend_at-balance a n now s.sessions s.challenges)

  -- Whatever requests and logins happen, in any order of their steps, the logins that have deleted the
  -- challenge of an address and the challenge that is stored for it at the end are together at most as
  -- many as those logins and that challenge at the start and the challenges that are issued for the
  -- address on the way.
  pub run-budget :
      (a : String) (es : List Event) (s : Server)
      → spent_for a (run lib cfg prefix es s).sessions
          + stored_for a (run lib cfg prefix es s).challenges
        ≤ spent_for a s.sessions + stored_for a s.challenges + issued_for a es
  unfolding run issued_for
  run-budget a [] s = omega arith
  run-budget a (e ∷ es) s =
      omega (arith, run-budget a es (step lib cfg prefix e s), step-budget a e s)
