-- ===== src/Auth/Concurrent.antt =====
-- Logins that run at the same time: `Login` and `RequestMessage` of app-rebuild/internal/auth/service.go in
-- the steps between their calls of the store of memory_store.go, whose mutex makes each call one step.
pub mod Alone
pub mod Spending
use meme_launchpad_backend.Common.{ℕ, zero, suc, String, not, List, [], ◌∷◌, if◌then◌else◌}
use meme_launchpad_backend.Postgres.Transaction.{Error, Result, ok, err}
use meme_launchpad_backend.Auth.{
  SiweConfig, SiweChallenge, Packages, Challenges, err_invalid_signature, delete_stored,
}
use meme_launchpad_backend.Auth.Service.{
  message, normalize_address, verify_signature, validate_challenge, get_challenge, request_message,
}

-- A call of `Login`: with its arguments; with the challenge whose signature it has checked; when the
-- challenge of the address is deleted; or with its error.
pub data Session : Type 0 where
  started : String → String → Session
  checked : String → SiweChallenge → Session
  consumed : String → SiweChallenge → Session
  refused : Error → Session

-- What happens next: a request for a message, a new login, and for the login at a place its check and its
-- deletion, each with the readings of the clock.
pub data Event : Type 0 where
  requested : String → ℕ → String → Event
  arrived : String → String → Event
  looked : ℕ → (ℕ → ℕ) → Event
  spent : ℕ → ℕ → Event

pub record Server : Type 0 where
  pub challenges : Challenges
  pub sessions : List Session

module _ (lib : Packages) (cfg : SiweConfig) (prefix : String) where
  -- `Login` up to `consumeNonce`
  unfoldable pub check : (ℕ → ℕ) → String → String → Challenges → Session
  unfolding normalize_address get_challenge validate_challenge verify_signature message
  check clock address signature t = elim (normalize_address lib address) [
    | err e ↦ refused e
    | ok a ↦ elim (get_challenge lib cfg (clock 0) (clock 1) a t) [
      | err e ↦ refused e
      | ok c ↦ elim (validate_challenge lib cfg (clock 2) c a) [
        | err e ↦ refused e
        | ok _ ↦
            if not (verify_signature lib prefix a (message lib c) signature)
            then refused err_invalid_signature
            else checked a c
      ]
    ]
  ]

  unfoldable pub look : (ℕ → ℕ) → Challenges → Session → Session
  unfolding check
  look clock t (started address signature) = check clock address signature t
  look clock t (checked a c) = checked a c
  look clock t (consumed a c) = consumed a c
  look clock t (refused e) = refused e

  unfoldable pub look_at : ℕ → (ℕ → ℕ) → Challenges → List Session → List Session
  unfolding look
  look_at n clock t [] = []
  look_at zero clock t (x ∷ xs) = look clock t x ∷ xs
  look_at (suc n) clock t (x ∷ xs) = x ∷ look_at n clock t xs

  -- `consumeNonce`
  unfoldable pub spend : ℕ → Session → Challenges → Session × Challenges
  unfolding delete_stored
  spend now (started address signature) t = (started address signature, t)
  spend now (checked a c) t =
      let (r, left) = delete_stored now a t in
      (elim r [ err e ↦ refused e | ok _ ↦ consumed a c ], left)
  spend now (consumed a c) t = (consumed a c, t)
  spend now (refused e) t = (refused e, t)

  unfoldable pub spend_at : ℕ → ℕ → List Session → Challenges → List Session × Challenges
  unfolding spend
  spend_at n now [] t = ([], t)
  spend_at zero now (x ∷ xs) t = let (y, left) = spend now x t in (y ∷ xs, left)
  spend_at (suc n) now (x ∷ xs) t = let (ys, left) = spend_at n now xs t in (x ∷ ys, left)

  unfoldable pub step : Event → Server → Server
  unfolding request_message look_at spend_at
  step (requested nonce now address) s = record s {
    challenges = (request_message lib cfg nonce now address s.challenges).1;
  }
  step (arrived address signature) s = record s {
    sessions = started address signature ∷ s.sessions;
  }
  step (looked n clock) s = record s { sessions = look_at n clock s.challenges s.sessions }
  step (spent n now) s =
      let (xs, left) = spend_at n now s.sessions s.challenges in
      record { challenges = left; sessions = xs }

  -- events in the order in which they happen
  unfoldable pub run : List Event → Server → Server
  unfolding step
  run [] s = s
  run (e ∷ es) s = run es (step e s)
