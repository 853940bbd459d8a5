-- ===== src/LegacyIndexer/Database/Klines.antt =====
-- The savepoint around the candles: what the transaction of a trade event can leave in the tables.
use meme_launchpad_backend.Common.{
  ℕ, ◌≡◌, refl, ◌∙◌, ap, ◌⊎◌, inl, inr, Bool, true, false, String, some, List, [], ◌∷◌, ◌&&◌, ◌==◌,
  nat_eq, if◌then◌else◌, arith, Bool-cases,
}
use meme_launchpad_backend.Postgres.Transaction.{
  Error, Result, ok, err, Tx, M, next_fault, within, exec, rollback_to, wrapped, raise, ◌>>=◌, ◌>>◌,
}
use meme_launchpad_backend.Postgres.Transaction.Laws.{Does, Does-pure, Does-exec, Does-then}
use meme_launchpad_backend.Candle.{intervals}
use meme_launchpad_backend.LegacyIndexer.Rows.{Tables}
use meme_launchpad_backend.LegacyIndexer.Database.{
  valid_interval, update_klines, update_kline_data, close_savepoint,
  update_kline_data_with_savepoint,
}
use meme_launchpad_backend.LegacyIndexer.Database.Recount.{klines_spec}

-- A statement after which the transaction is alive has succeeded.
exec_live :
    {D A : Type 0} (stmt : D → A × D) (tx : Tx D)
    → (exec stmt tx).1.aborted ≡ false
    → ((exec stmt tx).0 ≡ ok (stmt tx.tables).0) × ((exec stmt tx).1.tables ≡ (stmt tx.tables).1)
unfolding exec
exec_live stmt tx h = ground arith

rollback_live :
    (saved : Tables) (tx : Tx Tables)
    → (rollback_to saved tx).1.aborted ≡ false
    → ((rollback_to saved tx).0 ≡ ok tt) × ((rollback_to saved tx).1.tables ≡ saved)
unfolding rollback_to
rollback_live saved tx h = ground arith

aborted_run :
    {D A : Type 0} (B : Type 0) (text : String) (m : M D A) (e : Error) (tx : Tx D)
    → ((within text m >> raise {D = D} {A = B} e) tx).1 ≡ (m tx).1
aborted_run {D = D} {A = A} B text m e tx = go (m tx)
  where
    go :
        (out : Result A × Tx D)
        → ◌≡◌ {A = Tx D}
            (elim (wrapped text out.0) as (λ _. Result B × Tx D) [
              | ok a ↦ (err e, out.1)
              | err e' ↦ (err e', out.1)
            ]).1
            out.1
    go (ok a, tx') = refl
    go (err e', tx') = refl

-- A call whose first statement has failed leaves a dead transaction.
exec_then_live :
    {D A B : Type 0} (text : String) (stmt : D → A × D) (k : A → M D B) (tx : Tx D)
    → ((within text (exec stmt) >>= k) tx).1.aborted ≡ false
    → (within text (exec stmt) >>= k) tx
      ≡ k
          (stmt tx.tables).0
          (record tx { tables = (stmt tx.tables).1; faults = (next_fault tx.faults).1 })
unfolding exec
exec_then_live {D = D} text stmt k tx h = go tx.aborted tx.faults h
  where
    go :
        (aborted : Bool) (faults : List Bool)
        → ((within text (exec stmt) >>= k)
            (record { tables = tx.tables; aborted = aborted; faults = faults })).1.aborted
          ≡ false
        → (within text (exec stmt) >>= k)
            (record { tables = tx.tables; aborted = aborted; faults = faults })
          ≡ k (stmt tx.tables).0 (record {
            tables = (stmt tx.tables).1;
            aborted = aborted;
            faults = (next_fault faults).1;
          })
    go true faults h = cc
    go false [] h = refl
    go false (true ∷ rest) h = cc
    go false (false ∷ rest) h = refl

module _ (lower : String → String) (quotient : ℕ → ℕ → ℕ) where
  abbrev settled : Tables → Result (Unit {0}) → Tables → Tables
  settled saved (ok _) d = d
  settled saved (err _) d = saved

  close_live :
      (saved : Tables) (r : Result (Unit {0})) (tx : Tx Tables)
      → (close_savepoint lower quotient saved r tx).1.aborted ≡ false
      → (close_savepoint lower quotient saved r tx).1.tables ≡ settled saved r tx.tables
  unfolding close_savepoint
  close_live saved (ok _) tx h = (exec_live {A = Unit {0}} (λ d. (tt, d)) tx h).1
  close_live saved (err e) tx h =
      let same = aborted_run (Unit {0}) "failed to rollback savepoint" (rollback_to saved) e tx in
      ap (λ t. t.tables) same ∙ (rollback_live saved tx (rw (ap (λ t. t.aborted) same) at h)).1

  abbrev all_valid : List String → Bool
  all_valid [] = true
  all_valid (i ∷ is) = valid_interval intervals i && all_valid is

  update_klines-Does :
      (is : List String) (token : String) (time price volume : ℕ)
      → all_valid is ≡ true
      → Does
          (update_klines is token time price volume)
          (λ d. (tt, klines_spec is token time price volume d))
  unfolding update_klines klines_spec
  update_klines-Does [] token time price volume h = Does-pure tt
  update_klines-Does (i ∷ is) token time price volume h =
      elim (Bool-cases (valid_interval intervals i)) [
        | inl valid ↦ rw valid (
            Does-then (Does-exec _) (update_klines-Does is token time price volume (rw valid at h)))
        | inr invalid ↦ absurd (ground arith)
      ]

  -- the candles of a trade, on the tables
  unfoldable pub traded_spec : String → ℕ → ℕ → ℕ → Tables → Tables
  traded_spec token time bnb amount d =
      if amount == 0 then d else klines_spec intervals token time (quotient bnb amount) amount d

  update_kline_data-Does :
      (token : String) (time bnb amount : ℕ)
      → Does
          (update_kline_data lower quotient token time (some bnb) (some amount) [])
          (λ d. (tt, traded_spec token time bnb amount d))
  unfolding update_kline_data traded_spec
  update_kline_data-Does token time bnb amount = elim (Bool-cases (amount == 0)) [
    | inl nothing ↦ rw nothing (Does-pure tt)
    | inr traded ↦ rw traded (update_klines-Does intervals token time _ amount refl)
  ]

  -- the two ways that the candles of a trade can end
  abbrev pub Ends : String → ℕ → ℕ → ℕ → Tables → Tables → Type 0
  Ends token time bnb amount before after =
      (after ≡ before) ⊎ (after ≡ traded_spec token time bnb amount before)

  pub savepoint_live :
      (token : String) (time bnb amount : ℕ) (tx : Tx Tables)
      → let out =
          update_kline_data_with_savepoint lower quotient token time
            (some bnb)
            (some amount)
            []
            tx in
        out.1.aborted ≡ false → Ends token time bnb amount tx.tables out.1.tables
  unfolding update_kline_data_with_savepoint
  savepoint_live token time bnb amount tx h =
      let open_tx : Tx Tables = record tx { faults = (next_fault tx.faults).1 } in
      let run = update_kline_data lower quotient token time (some bnb) (some amount) [] in
      let opened =
        exec_then_live "failed to create savepoint" (λ d. (tt, d))
          (λ _ t. let (r, t') = run t in close_savepoint lower quotient t.tables r t') tx h in
      rw opened (go (run open_tx) refl (rw opened at h))
    where
      go :
          (out : Result (Unit {0}) × Tx Tables)
          → update_kline_data lower quotient token time
              (some bnb)
              (some amount)
              []
              (record tx { faults = (next_fault tx.faults).1 })
            ≡ out
          → (close_savepoint lower quotient tx.tables out.0 out.1).1.aborted ≡ false
          → Ends token time bnb amount tx.tables
              (close_savepoint lower quotient tx.tables out.0 out.1).1.tables
      go (ok _, t) e alive = inr (
          close_live tx.tables (ok tt) t alive
          ∙ ((update_kline_data-Does token time bnb amount).on_ok _ t tt e).1)
      go (err e', t) e alive = inl (close_live tx.tables (err e') t alive)
