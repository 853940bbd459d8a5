-- ===== src/LegacyIndexer/Database/Recount.antt =====
-- What a trade event does when every statement succeeds, and what it does the second time.
use meme_launchpad_backend.Common.{
  ℕ, ◌&&◌, ◌+◌, ◌≡◌, refl, ◌∙◌, String, true, false, none, some, List, [], ◌∷◌, ◌==◌, ==_refl,
  nat_eq, string_eq, pair_eq, triple_eq, eq_iff, arith, if◌then◌else◌, Bool-cases, inl, inr,
}
use meme_launchpad_backend.Postgres.Table.{
  lookup, insert_new, insert_new-insert_new, lookup-insert_new,
}
use meme_launchpad_backend.Postgres.Transaction.{ok, Tx, World, exec, rollback_to, transact}
use meme_launchpad_backend.Candle.{align_time_to_interval, intervals}
use meme_launchpad_backend.Ledger.Rows.{KlineKey}
use meme_launchpad_backend.Ledger.Statements.{kline_row}
use meme_launchpad_backend.Ledger.Volume.{volume_of, occurs, distinct, lookup-upsert_volume}
use meme_launchpad_backend.LegacyIndexer.Rows.{TokenBoughtEvent, Tables}
use meme_launchpad_backend.LegacyIndexer.Statements.{
  insert_bought_event, insert_trade, set_totals, update_tokens, upsert_kline,
}
use meme_launchpad_backend.LegacyIndexer.Database.{
  update_kline_data, update_kline_data_with_savepoint, bought_body, insert_token_bought_event,
  bought_trade,
}

abbrev pub calm : Tables → Tx Tables
calm d = record { tables = d; aborted = false; faults = [] }

abbrev pub healthy : Tables → World Tables
healthy d = record { db = d; faults = [] }

-- the candles of one trade, on the tables
unfoldable pub klines_spec : List String → String → ℕ → ℕ → ℕ → Tables → Tables
klines_spec [] token time price volume d = d
klines_spec (i ∷ is) token time price volume d =
    klines_spec is token time price volume
      (upsert_kline (token, i, align_time_to_interval time i) price volume d).1

module _ (lower : String → String) (quotient : ℕ → ℕ → ℕ) where
  -- everything before the candles
  unfoldable pub bought_rows : TokenBoughtEvent → Tables → Tables
  bought_rows e d =
      (update_tokens lower e.token_address
        (set_totals e.collected_bnb e.available_tokens e.block_timestamp)
        (insert_trade e.transaction_hash 10 (bought_trade e) (insert_bought_event e d).1).1).1

  unfoldable pub bought_spec : TokenBoughtEvent → Tables → Tables
  bought_spec e d =
      if e.token_amount == 0
      then bought_rows e d
      else klines_spec intervals e.token_address e.block_timestamp
          (quotient e.bnb_amount e.token_amount) e.token_amount (bought_rows e d)

  pub insert_token_bought_event-calm :
      (e : TokenBoughtEvent) (d : Tables)
      → insert_token_bought_event lower quotient e (healthy d) ≡ (ok tt, healthy (bought_spec e d))
  unfolding insert_token_bought_event bought_body update_kline_data_with_savepoint update_kline_data
      bought_spec bought_rows klines_spec transact exec rollback_to
  insert_token_bought_event-calm e d = elim (Bool-cases (e.token_amount == 0)) [
    | inl nothing ↦ rw nothing refl
    | inr amount ↦ rw amount refl
  ]

abbrev pub volume_at : KlineKey → Tables → ℕ
volume_at k d = volume_of (lookup k d.klines)

volume_at-upsert_kline :
    (k key : KlineKey) (price volume : ℕ) (d : Tables)
    → volume_at k (upsert_kline key price volume d).1
      ≡ volume_at k d + (if key == k then volume else 0)
unfolding upsert_kline kline_row
volume_at-upsert_kline k key price volume d =
    lookup-upsert_volume k key (kline_row price volume) price d.klines

-- A trade adds its amount to just the candles that it falls into.
volume_at-klines_spec :
    (a j : String) (o : ℕ) (is : List String) (token : String) (time price volume : ℕ) (d : Tables)
    → distinct is ≡ true
    → volume_at (a, j, o) (klines_spec is token time price volume d)
      ≡ volume_at (a, j, o) d
        + (if occurs j is && (token == a && align_time_to_interval time j == o) then volume else 0)
unfolding klines_spec
volume_at-klines_spec a j o [] token time price volume d h = omega arith
volume_at-klines_spec a j o (i ∷ is) token time price volume d h =
    let key : KlineKey = (token, i, align_time_to_interval time i) in
    ground (
      arith,
      volume_at-klines_spec a j o is token time price volume (upsert_kline key price volume d).1,
      volume_at-upsert_kline (a, j, o) key price volume d,
      eq_iff i j,
    )

module _ (lower : String → String) (quotient : ℕ → ℕ → ℕ) where
  bought_spec-volume :
      (e : TokenBoughtEvent) (d : Tables) (i : String)
      → (e.token_amount == 0) ≡ false
      → occurs i intervals ≡ true
      → let k : KlineKey = (e.token_address, i, align_time_to_interval e.block_timestamp i) in
        volume_at k (bought_spec lower quotient e d) ≡ volume_at k d + e.token_amount
  unfolding bought_spec bought_rows update_tokens insert_trade insert_bought_event
  bought_spec-volume e d i amount listed = rw amount (
      volume_at-klines_spec e.token_address i (align_time_to_interval e.block_timestamp i) intervals
        e.token_address e.block_timestamp _ e.token_amount (bought_rows lower quotient e d) refl
      ∙ rw (listed, ==_refl e.token_address, ==_refl (align_time_to_interval e.block_timestamp i))
          refl)

  trades-klines_spec :
      (is : List String) (token : String) (time price volume : ℕ) (d : Tables)
      → (klines_spec is token time price volume d).trades ≡ d.trades
  unfolding klines_spec upsert_kline
  trades-klines_spec [] token time price volume d = refl
  trades-klines_spec (i ∷ is) token time price volume d =
      trades-klines_spec is token time price volume _

  trades-bought_spec :
      (e : TokenBoughtEvent) (d : Tables)
      → (bought_spec lower quotient e d).trades
        ≡ insert_new (e.transaction_hash, 10) (bought_trade e) d.trades
  unfolding bought_spec bought_rows update_tokens insert_trade insert_bought_event
  trades-bought_spec e d = elim (Bool-cases (e.token_amount == 0)) [
    | inl nothing ↦ rw nothing refl
    | inr amount ↦ rw amount (trades-klines_spec intervals e.token_address e.block_timestamp _ _ _)
  ]

  -- Writing a purchase of a positive amount of tokens twice, with no failing statement, adds the
  -- amount to each of its eight candles both times, while the second time leaves trades as it is.
  pub bought_twice_recounts :
      (e : TokenBoughtEvent) (d : Tables) (i : String)
      → (e.token_amount == 0) ≡ false
      → occurs i intervals ≡ true
      → let k : KlineKey = (e.token_address, i, align_time_to_interval e.block_timestamp i) in
        let once = (insert_token_bought_event lower quotient e (healthy d)).1 in
        let twice = (insert_token_bought_event lower quotient e once).1 in
        (volume_at k once.db ≡ volume_at k d + e.token_amount)
        × (volume_at k twice.db ≡ volume_at k d + e.token_amount + e.token_amount)
        × (twice.db.trades ≡ once.db.trades)
  bought_twice_recounts e d i amount listed =
      let first = bought_spec-volume e d i amount listed in
      let second = bought_spec-volume e (bought_spec lower quotient e d) i amount listed in
      rw (insert_token_bought_event-calm lower quotient e d) (
        rw (insert_token_bought_event-calm lower quotient e (bought_spec lower quotient e d)) (
          first,
          omega (arith, first, second),
          trades-bought_spec e (bought_spec lower quotient e d)
              ∙ rw trades-bought_spec (
                  insert_new-insert_new (e.transaction_hash, 10) (bought_trade e) (bought_trade e)
                    d.trades),
        ))

  -- Two purchases of one transaction leave only the first of them in trades, whatever the second
  -- one is, when no statement fails and trades has no purchase of the transaction before.
  pub second_purchase_dropped :
      (e e' : TokenBoughtEvent) (d : Tables)
      → e'.transaction_hash ≡ e.transaction_hash
      → lookup (e.transaction_hash, 10) d.trades ≡ none
      → let once = (insert_token_bought_event lower quotient e (healthy d)).1 in
        let both = (insert_token_bought_event lower quotient e' once).1 in
        (both.db.trades ≡ once.db.trades)
        × (lookup (e.transaction_hash, 10) both.db.trades ≡ some (bought_trade e))
  unfolding bought_trade
  second_purchase_dropped e e' d same fresh =
      let first = trades-bought_spec e d in
      let kept : (bought_spec lower quotient e' (bought_spec lower quotient e d)).trades
          ≡ (bought_spec lower quotient e d).trades =
        trades-bought_spec e' (bought_spec lower quotient e d)
        ∙ rw (same, first)
            (insert_new-insert_new (e.transaction_hash, 10) (bought_trade e) (bought_trade e')
              d.trades) in
      rw (insert_token_bought_event-calm lower quotient e d) (
        rw (insert_token_bought_event-calm lower quotient e' (bought_spec lower quotient e d)) (
          kept,
          rw (kept, first)
              (lookup-insert_new (e.transaction_hash, 10) (e.transaction_hash, 10) (bought_trade e)
                  d.trades
                ∙ rw (fresh, ==_refl (e.transaction_hash)) refl),
        ))
