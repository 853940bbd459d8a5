-- ===== src/LegacyIndexer/Database/Commit.antt =====
-- What a committed trade event leaves: its rows always, its candles all or none.
use meme_launchpad_backend.Common.{
  ℕ, ◌≡◌, refl, ◌∙◌, ap, inl, inr, false, String, some, [], nat_eq, Bool-cases,
}
use meme_launchpad_backend.Postgres.Transaction.{
  Error, Result, ok, err, Tx, M, World, next_fault, attempt, ◌>>◌, finish, transact,
}
use meme_launchpad_backend.Postgres.Transaction.Laws.{Does, Does-exec, bind-eq-ok}
use meme_launchpad_backend.LegacyIndexer.Rows.{TokenBoughtEvent, TokenSoldEvent, Tables}
use meme_launchpad_backend.LegacyIndexer.Statements.{
  insert_sold_event, insert_trade, set_totals, update_tokens,
}
use meme_launchpad_backend.LegacyIndexer.Database.{
  update_kline_data_with_savepoint, sold_trade, bought_body, sold_body, insert_token_bought_event,
  insert_token_sold_event,
}
use meme_launchpad_backend.LegacyIndexer.Database.Recount.{bought_rows}
use meme_launchpad_backend.LegacyIndexer.Database.Klines.{Ends, savepoint_live}

-- Every run of `m` that returns in a transaction that is alive relates the tables by `R`.
record Leaves {D A : Type 0} (m : M D A) (R : D → D → Type 0) : Type 0 where
  on_live :
      (tx tx' : Tx D) (a : A) → m tx ≡ (ok a, tx') → tx'.aborted ≡ false → R tx.tables tx'.tables

module _ {D A B : Type 0} where
  Leaves-then :
      {m : M D A} {n : M D B} {f : D → A × D} {R : D → D → Type 0}
      → Does m f
      → Leaves n R
      → Leaves (m >> n) (λ d d'. R (f d).1 d')
  Leaves-then {m = m} {n = n} {R = R} hm hn = record {
    on_live = λ tx tx' b h alive.
        let (a, ra, rn) = bind-eq-ok m (λ _. n) tx tx' b h in
        let (_, same) = hm.on_ok tx (m tx).1 a (λ i. (ra i, (m tx).1)) in
        rw (ap (λ d. R d tx'.tables) same) at (hn.on_live (m tx).1 tx' b rn alive);
  }

module _ {D A : Type 0} where
  -- The committed tables are related to those before, or no error is returned and they are the same.
  abbrev pub IsCommitted : Result A × World D → World D → (D → D → Type 0) → Type 0
  IsCommitted (ok a, w') w R = R w.db w'.db
  IsCommitted (err e, w') w R = w'.db ≡ w.db

  transact-IsCommitted :
      (begin_error : Error → Error) (body : M D A) (R : D → D → Type 0)
      → Leaves body R
      → (w : World D) → IsCommitted (transact begin_error body w) w R
  unfolding transact finish
  transact-IsCommitted begin_error body R h w = elim (Bool-cases (next_fault w.faults).0) [
    | inl refused ↦ rw refused refl
    | inr begun ↦ rw begun (
        after (body (record { tables = w.db; aborted = false; faults = (next_fault w.faults).1 }))
          refl)
  ]
    where
      after :
          (out : Result A × Tx D)
          → body (record { tables = w.db; aborted = false; faults = (next_fault w.faults).1 }) ≡ out
          → IsCommitted (finish w.db out) w R
      after (err e', tx) e = refl
      after (ok a, tx) e = elim (Bool-cases tx.aborted) [
        | inl dead ↦ rw dead refl
        | inr alive ↦ elim (Bool-cases (next_fault tx.faults).0) [
          | inl lost ↦ rw (alive, lost) refl
          | inr kept ↦ rw (alive, kept) (h.on_live _ tx a e alive)
        ]
      ]

module _ (lower : String → String) (quotient : ℕ → ℕ → ℕ) where
  -- everything that a sale writes before the candles
  unfoldable pub sold_rows : TokenSoldEvent → Tables → Tables
  sold_rows e d =
      (update_tokens lower e.token_address
        (set_totals e.collected_bnb e.available_tokens e.block_timestamp)
        (insert_trade e.transaction_hash 20 (sold_trade e) (insert_sold_event e d).1).1).1

  update_kline_data_with_savepoint-Leaves :
      (token : String) (time bnb amount : ℕ)
      → Leaves
          (attempt (
            update_kline_data_with_savepoint lower quotient token time (some bnb) (some amount) []))
          (Ends lower quotient token time bnb amount)
  update_kline_data_with_savepoint-Leaves token time bnb amount = record {
    on_live = λ tx tx' a h alive.
        let sp =
          update_kline_data_with_savepoint lower quotient token time (some bnb) (some amount) [] in
        let same : (sp tx).1 ≡ tx' = ap (λ r. r.1) h in
        rw (ap (λ t. Ends lower quotient token time bnb amount tx.tables t.tables) same) at (
          savepoint_live lower quotient token time bnb amount tx
            (ap (λ t. t.aborted) same ∙ alive));
  }

  insert_token_bought_event-IsCommitted :
      (e : TokenBoughtEvent) (w : World Tables)
      → IsCommitted (insert_token_bought_event lower quotient e w) w (λ d d'.
        Ends lower quotient e.token_address e.block_timestamp e.bnb_amount e.token_amount
          (bought_rows lower quotient e d)
          d')
  unfolding insert_token_bought_event bought_body bought_rows
  insert_token_bought_event-IsCommitted e w =
      transact-IsCommitted _ _ _
        (Leaves-then (Does-exec _) (
          Leaves-then (Does-exec _) (
            Leaves-then (Does-exec _) (
              update_kline_data_with_savepoint-Leaves e.token_address e.block_timestamp e.bnb_amount
                e.token_amount))))
        w

  insert_token_sold_event-IsCommitted :
      (e : TokenSoldEvent) (w : World Tables)
      → IsCommitted (insert_token_sold_event lower quotient e w) w (λ d d'.
        Ends lower quotient e.token_address e.block_timestamp e.bnb_amount e.token_amount
          (sold_rows e d)
          d')
  unfolding insert_token_sold_event sold_body sold_rows
  insert_token_sold_event-IsCommitted e w =
      transact-IsCommitted _ _ _
        (Leaves-then (Does-exec _) (
          Leaves-then (Does-exec _) (
            Leaves-then (Does-exec _) (
              update_kline_data_with_savepoint-Leaves e.token_address e.block_timestamp e.bnb_amount
                e.token_amount))))
        w

  -- Writing one purchase or one sale either returns an error and leaves the tables as they were, or
  -- returns none and leaves what its statements for the event, the trade and the token's totals do, the
  -- first two of which do nothing where a row with the key is stored, and then all of its candles or
  -- none of them. This holds whichever statements fail.
  pub trade_events-AreCommitted :
      (bought : TokenBoughtEvent) (sold : TokenSoldEvent) (w : World Tables)
      → IsCommitted (insert_token_bought_event lower quotient bought w) w (λ d d'.
        Ends lower quotient bought.token_address bought.block_timestamp bought.bnb_amount
          bought.token_amount
          (bought_rows lower quotient bought d)
          d')
        × IsCommitted (insert_token_sold_event lower quotient sold w) w (λ d d'.
          Ends lower quotient sold.token_address sold.block_timestamp sold.bnb_amount
            sold.token_amount
            (sold_rows sold d)
            d')
  trade_events-AreCommitted bought sold w =
      (insert_token_bought_event-IsCommitted bought w, insert_token_sold_event-IsCommitted sold w)
