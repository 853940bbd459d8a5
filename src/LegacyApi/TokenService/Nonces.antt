-- ===== src/LegacyApi/TokenService/Nonces.antt =====
-- The nonces that `getNextNonce` hands out.
use meme_launchpad_backend.Common.{
  ℕ, ◌+◌, ◌≡◌, refl, ◌∙◌, ap, Bool, true, false, Option, none, some, List, ◌∷◌, ◌==◌, ==_refl,
  nat_eq,
}
use meme_launchpad_backend.Fallible.{Error, ok, err}
use meme_launchpad_backend.Postgres.Table.{lookup, update_where, lookup-update_where}
use meme_launchpad_backend.Postgres.Transaction.{World, next_fault, broken}
use meme_launchpad_backend.LegacyApi.TokenService.Laws.{after, run-refused, run-done, run-failing}
use meme_launchpad_backend.LegacyApi.TokenService.{
  no_rows, connected, Tables, run, insert_nonce, update_nonce, select_nonce, fallback,
  get_next_nonce,
}

-- the stored nonce of a chain
abbrev pub stored : ℕ → World Tables → Option ℕ
stored chain_id w = lookup chain_id w.db.nonce_sequence

insert_nonce-fails : (w : World Tables) → (f : Error) × (run insert_nonce w ≡ (err f, after w))
insert_nonce-fails w = run-failing insert_nonce w _ refl

-- the SELECT after an UPDATE that has failed and the INSERT that fails
fallback-selects :
    (chain_id : ℕ) (e : Error) (w : World Tables)
    → fallback chain_id (err e, w) ≡ run (select_nonce chain_id) (after w)
unfolding fallback
fallback-selects chain_id e w = ap (λ o. run (select_nonce chain_id) o.1) (insert_nonce-fails w).1

module _ (chain_id : ℕ) (w : World Tables) where
  -- While the UPDATE does not fail, a nonce is one more than the stored one, and is stored.
  pub get_next_nonce-increments :
      (n : ℕ)
      → (next_fault w.faults).0 ≡ false
      → stored chain_id w ≡ some n
      → ((get_next_nonce connected chain_id w).0 ≡ ok (n + 1))
        × (stored chain_id (get_next_nonce connected chain_id w).1 ≡ some (n + 1))
  unfolding get_next_nonce fallback update_nonce
  get_next_nonce-increments n fine here =
      let sequence = w.db.nonce_sequence in
      let left = update_where (λ c. c == chain_id) (λ n. n + 1) sequence in
      let ran : run (update_nonce chain_id) w ≡ (
        ok (n + 1),
        record { db = record w.db { nonce_sequence = left }; faults = (next_fault w.faults).1 },
      ) =
        run-done (update_nonce chain_id) w (n + 1) (record w.db { nonce_sequence = left }) fine
          (rw (here, update_nonce) refl) in
      let counted : lookup chain_id left ≡ some (n + 1) =
        lookup-update_where chain_id (λ c. c == chain_id) (λ n. n + 1) sequence
        ∙ rw (==_refl chain_id, here) refl in
      (
        ap (λ o. (fallback chain_id o).0) ran,
        ap (λ o. stored chain_id (fallback chain_id o).1) ran ∙ counted,
      )

  -- When the UPDATE fails and the SELECT after it does not, the stored nonce, which an earlier call
  -- may have handed out, is returned again, and the table stays as it is.
  pub nonce_reused :
      (n : ℕ) (second : Bool) (rest : List Bool)
      → w.faults ≡ true ∷ second ∷ false ∷ rest
      → stored chain_id w ≡ some n
      → ((get_next_nonce connected chain_id w).0 ≡ ok n)
        × ((get_next_nonce connected chain_id w).1.db ≡ w.db)
  unfolding get_next_nonce select_nonce
  nonce_reused n second rest failing here =
      let refused = run-refused (update_nonce chain_id) w (ap (λ f. (next_fault f).0) failing) in
      let third : (next_fault (after (after w)).faults).0 ≡ false =
        ap (λ f. (next_fault (next_fault (next_fault f).1).1).0) failing in
      let selected =
        run-done (select_nonce chain_id) (after (after w)) n w.db third
          (rw (here, select_nonce) refl) in
      let whole =
        ap (fallback chain_id) refused ∙ fallback-selects chain_id broken (after w) ∙ selected in
      (ap (λ o. o.0) whole, ap (λ o. o.1.db) whole)

  -- For a chain without a row no call gets a nonce or adds the row, whatever the database answers.
  get_next_nonce-missing :
      stored chain_id w ≡ none
      → ((e : Error) × ((get_next_nonce connected chain_id w).0 ≡ err e))
        × ((get_next_nonce connected chain_id w).1.db ≡ w.db)
  unfolding get_next_nonce update_nonce select_nonce
  get_next_nonce-missing gone =
      let (e, updated) =
        run-failing (update_nonce chain_id) w no_rows (rw (gone, update_nonce) refl) in
      let (f, selected) =
        run-failing (select_nonce chain_id) (after (after w)) no_rows
          (rw (gone, select_nonce) refl) in
      let whole =
        ap (fallback chain_id) updated ∙ fallback-selects chain_id e (after w) ∙ selected in
      ((f, ap (λ o. o.0) whole), ap (λ o. o.1.db) whole)
