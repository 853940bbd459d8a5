-- ===== src/Ledger/Repository.antt =====
-- The functions of app-rebuild/internal/repository/chain_event.go over a transaction.
use meme_launchpad_backend.Common.{
  ℕ, String, Option, none, some, List, [], ◌∷◌, ◌==◌, nat_eq, if◌then◌else◌,
}
use meme_launchpad_backend.Postgres.Transaction.{
  wrap, Result, M, World, pure, within, exec, ◌>>=◌, ◌>>◌, transact, rolled_back,
}
use meme_launchpad_backend.Candle.{align_time, intervals}
use meme_launchpad_backend.Ledger.Rows.{
  Encoding, Log, TokenCreatedProjection, TokenTradeProjection, TokenGraduatedProjection,
  ChainProjection, KlineKey, Ledger,
}
use meme_launchpad_backend.Ledger.Raw.{find_checkpoint, insert_chain_event, upsert_checkpoint}
use meme_launchpad_backend.Ledger.Statements.{
  int_string, price_string, insert_created_event, upsert_token, insert_trade_event, insert_trade,
  update_totals, insert_graduated_event, mark_graduated, upsert_kline,
}

module _ (enc : Encoding) where
  abbrev pub kline_key : TokenTradeProjection → String → KlineKey
  kline_key e interval =
      (enc.lower e.token_address, interval, align_time e.block_timestamp interval)

  -- the loop of `upsertKlines`
  unfoldable pub upsert_klines_from : List String → TokenTradeProjection → M Ledger (Unit {0})
  upsert_klines_from [] e = pure tt
  upsert_klines_from (interval ∷ rest) e = do
    exec (
        upsert_kline (kline_key e interval) (price_string e.bnb_amount e.token_amount)
          (int_string e.token_amount))
    upsert_klines_from rest e

  unfoldable pub upsert_klines : TokenTradeProjection → M Ledger (Unit {0})
  unfolding upsert_klines_from
  upsert_klines = upsert_klines_from intervals

  unfoldable pub apply_token_created : TokenCreatedProjection → M Ledger (Unit {0})
  apply_token_created e = do
    within "insert token created event" (exec (insert_created_event enc e))
    within "upsert token projection" (exec (upsert_token enc e))

  unfoldable pub apply_token_trade : TokenTradeProjection → M Ledger (Unit {0})
  apply_token_trade e = do
    within "insert token trade event" (exec (insert_trade_event enc e))
    rows ← within "insert trade projection" (exec (insert_trade enc e))
    within "update token trade totals" (exec (update_totals enc e))
    if rows == 0 then pure tt else within "upsert klines" (upsert_klines e)

  unfoldable pub apply_token_graduated : TokenGraduatedProjection → M Ledger (Unit {0})
  apply_token_graduated e = do
    within "insert token graduated event" (exec (insert_graduated_event enc e))
    within "mark token graduated" (exec (mark_graduated enc e))

  -- The `switch` of `applyProjection` takes the first pointer that is not nil.
  unfoldable pub apply_projection : ChainProjection → M Ledger (Unit {0})
  apply_projection p = elim p.token_created [
    | some e ↦ apply_token_created e
    | none ↦ elim p.token_bought [
      | some e ↦ apply_token_trade e
      | none ↦ elim p.token_sold [
        | some e ↦ apply_token_trade e
        | none ↦ elim p.token_graduated [ some e ↦ apply_token_graduated e | none ↦ pure tt ]
      ]
    ]
  ]

  -- the two loops of `SaveBlockRange`
  unfoldable pub insert_logs : ℕ → String → List Log → M Ledger (Unit {0})
  insert_logs chain_id contract [] = pure tt
  insert_logs chain_id contract (log ∷ logs) = do
    within "insert chain event" (exec (insert_chain_event enc chain_id contract log))
    insert_logs chain_id contract logs

  unfoldable pub apply_projections : List ChainProjection → M Ledger (Unit {0})
  apply_projections [] = pure tt
  apply_projections (p ∷ ps) = do apply_projection p; apply_projections ps

  unfoldable pub save_body : ℕ → String → ℕ → List Log → List ChainProjection → M Ledger (Unit {0})
  save_body chain_id contract last_block logs projections = do
    insert_logs chain_id contract logs
    apply_projections projections
    within "update checkpoint" (exec (upsert_checkpoint enc chain_id contract last_block))

  unfoldable pub save_block_range :
      ℕ
      → String
      → ℕ
      → List Log
      → List ChainProjection
      → World Ledger
      → Result (Unit {0}) × World Ledger
  unfolding save_body
  save_block_range chain_id contract last_block logs projections =
      transact (wrap "begin event save") (save_body chain_id contract last_block logs projections)

  -- `none` is `found = false`.
  unfoldable pub last_synced_block : ℕ → String → World Ledger → Result (Option ℕ) × World Ledger
  last_synced_block chain_id contract = rolled_back (wrap "begin checkpoint query") (
      within "read checkpoint"
        (exec (λ d. (find_checkpoint enc chain_id contract d.checkpoints, d))))
