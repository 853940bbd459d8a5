-- ===== src/Ledger/Shape.antt =====
-- The prices of a candle are in order.
use meme_launchpad_backend.Common.{
  ℕ, String, ◌≡◌, refl, List, [], ◌∷◌, arith, ◌≤◌, All, ◌==◌, Bool-cases, inl, inr, nat_eq,
  string_eq, pair_eq, triple_eq,
}
use meme_launchpad_backend.Postgres.Table.{All-upsert}
use meme_launchpad_backend.Postgres.Transaction.{World}
use meme_launchpad_backend.Candle.{intervals}
use meme_launchpad_backend.Ledger.Rows.{
  Encoding, Log, TokenTradeProjection, ChainProjection, KlineRow, KlineKey, Ledger,
}
use meme_launchpad_backend.Ledger.Raw.{insert_chain_event, upsert_checkpoint}
use meme_launchpad_backend.Ledger.Statements.{
  insert_created_event, upsert_token, insert_trade_event, insert_trade, update_totals,
  insert_graduated_event, mark_graduated, trade_type_sell, merge_kline, kline_row, upsert_kline,
}
use meme_launchpad_backend.Ledger.Repository.{save_block_range}
use meme_launchpad_backend.Ledger.Spec.{kline_spec, created_spec, trade_spec, graduated_spec}
use meme_launchpad_backend.Ledger.Keeps.{Keeps, save_block_range-keeps}

-- The lowest price of a candle is at most its first and its last price, and these at most the highest.
abbrev IsShaped : KlineRow → Type 0
IsShaped row =
    (row.low_price ≤ row.open_price)
    × (row.open_price ≤ row.high_price)
    × (row.low_price ≤ row.close_price)
    × (row.close_price ≤ row.high_price)

pub record AreShaped (d : Ledger) : Type 0 where
  pub shaped : All (λ (r : KlineKey × KlineRow). IsShaped r.1) d.klines

module _ (enc : Encoding) where
  kline_spec-AreShaped :
      (is : List String) (e : TokenTradeProjection) (d : Ledger)
      → AreShaped d
      → AreShaped (kline_spec enc is e d)
  unfolding kline_spec upsert_kline kline_row merge_kline
  kline_spec-AreShaped [] e d h = h
  kline_spec-AreShaped (i ∷ is) e d h = kline_spec-AreShaped is e _ (record {
    shaped = All-upsert IsShaped _ _ _ (omega arith) (λ v p. omega arith) d.klines h.shaped;
  })

  trade_spec-AreShaped :
      (e : TokenTradeProjection) (d : Ledger) → AreShaped d → AreShaped (trade_spec enc e d)
  unfolding trade_spec insert_trade update_totals insert_trade_event
  trade_spec-AreShaped e d h =
      let same : (insert_trade_event enc e d).1.klines ≡ d.klines =
        elim (Bool-cases (e.trade_type == trade_type_sell)) [
          | inl sale ↦ rw sale refl
          | inr purchase ↦ rw purchase refl
        ] in
      let start : AreShaped
          (update_totals enc e (insert_trade enc e (insert_trade_event enc e d).1).1).1 =
        record { shaped = rw same h.shaped } in
      elim (Bool-cases ((insert_trade enc e (insert_trade_event enc e d).1).0 == 0)) [
        | inl old ↦ rw old start
        | inr new ↦ rw new (kline_spec-AreShaped intervals e _ start)
      ]

  AreShaped-Keeps : Keeps enc AreShaped
  unfolding insert_chain_event upsert_checkpoint created_spec insert_created_event upsert_token
      graduated_spec insert_graduated_event mark_graduated
  AreShaped-Keeps = record {
    keeps_log = λ chain_id contract log d h. record { shaped = h.shaped };
    keeps_created = λ e d h. record { shaped = h.shaped };
    keeps_trade = λ e d h. trade_spec-AreShaped e d h;
    keeps_graduated = λ e d h. record { shaped = h.shaped };
    keeps_checkpoint = λ chain_id contract last_block d h. record { shaped = h.shaped };
  }

  -- If the lowest price of every candle is at most its first and its last price, and these are at most
  -- its highest, then so they are after any block range has been saved, whichever statements failed.
  pub save_block_range-AreShaped :
      (chain_id : ℕ) (contract : String) (last_block : ℕ) (logs : List Log)
      (ps : List ChainProjection) (w : World Ledger)
      → AreShaped w.db
      → AreShaped (save_block_range enc chain_id contract last_block logs ps w).1.db
  save_block_range-AreShaped chain_id contract last_block logs ps w h =
      save_block_range-keeps enc AreShaped AreShaped-Keeps chain_id contract last_block logs ps w h
