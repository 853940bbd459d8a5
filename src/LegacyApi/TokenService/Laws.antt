-- ===== src/LegacyApi/TokenService/Laws.antt =====
-- What a statement of the token service does to the database.
use meme_launchpad_backend.Common.{
  ℕ, ◌≡◌, inl, inr, refl, true, false, Bool-cases, Option-cases, nat_eq,
}
use meme_launchpad_backend.Fallible.{Error, Result, ok, err, Result-cases, Yields, ok-Yields}
use meme_launchpad_backend.Postgres.Table.{lookup}
use meme_launchpad_backend.Postgres.Transaction.{World, next_fault, broken}
use meme_launchpad_backend.LegacyApi.TokenService.{Tables, run, update_nonce, select_nonce}

-- the world after a statement that has no effect
abbrev pub after : World Tables → World Tables
after w = record w { faults = (next_fault w.faults).1 }

module _ {A : Type 0} (statement : Tables → Result (A × Tables)) (w : World Tables) where
  pub run-refused : (next_fault w.faults).0 ≡ true → run statement w ≡ (err broken, after w)
  unfolding run
  run-refused bad = rw (bad, run) refl

  pub run-done :
      (a : A) (d : Tables)
      → (next_fault w.faults).0 ≡ false
      → statement w.db ≡ ok (a, d)
      → run statement w ≡ (ok a, record { db = d; faults = (next_fault w.faults).1 })
  unfolding run
  run-done a d fine h = rw (fine, run) (rw (h, run) refl)

  -- A statement that fails on the tables has no effect, whether or not it is refused before.
  pub run-failing :
      (e : Error) → statement w.db ≡ err e → (f : Error) × (run statement w ≡ (err f, after w))
  unfolding run
  run-failing e h = elim (Bool-cases (next_fault w.faults).0) [
    | inl bad ↦ (broken, run-refused bad)
    | inr fine ↦ (e, rw (fine, run) (rw (h, run) refl))
  ]

  -- A statement that leaves a part of the tables when it succeeds leaves it in any case.
  pub run-keeps :
      {B : Type 0} (part : Tables → B)
      → Yields (λ o. part o.1 ≡ part w.db) (statement w.db)
      → part (run statement w).1.db ≡ part w.db
  unfolding run
  run-keeps part keeps = elim (Bool-cases (next_fault w.faults).0) [
    | inl bad ↦ rw (bad, run) refl
    | inr fine ↦ elim (Result-cases (statement w.db)) [
      | inr (e, h) ↦ rw (fine, run) (rw (h, run) refl)
      | inl (o, h) ↦ rw (fine, run) (rw (h, run) (keeps o h))
    ]
  ]

module _ (chain_id : ℕ) (d : Tables) where
  pub update_nonce-keeps :
      Yields
        (λ o. o.1.token_creation_requests ≡ d.token_creation_requests)
        (update_nonce chain_id d)
  unfolding update_nonce
  update_nonce-keeps = elim (Option-cases (lookup chain_id d.nonce_sequence)) [
    | inl gone ↦ rw (gone, update_nonce) (λ o h. absurd cc)
    | inr (n, here) ↦
        rw (here, update_nonce)
          (ok-Yields (λ o. o.1.token_creation_requests ≡ d.token_creation_requests) refl)
  ]

  pub select_nonce-keeps :
      Yields
        (λ o. o.1.token_creation_requests ≡ d.token_creation_requests)
        (select_nonce chain_id d)
  unfolding select_nonce
  select_nonce-keeps = elim (Option-cases (lookup chain_id d.nonce_sequence)) [
    | inl gone ↦ rw (gone, select_nonce) (λ o h. absurd cc)
    | inr (n, here) ↦
        rw (here, select_nonce)
          (ok-Yields (λ o. o.1.token_creation_requests ≡ d.token_creation_requests) refl)
  ]
