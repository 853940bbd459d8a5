-- ===== src/Ledger/Accounting.antt =====
-- Whatever is saved, and whichever statements fail, the candles account for the trades.
use meme_launchpad_backend.Common.{ℕ, String, List, nat_eq, string_eq, pair_eq, triple_eq}
use meme_launchpad_backend.Postgres.Transaction.{World}
use meme_launchpad_backend.Ledger.Rows.{Encoding, Log, ChainProjection, Ledger}
use meme_launchpad_backend.Ledger.Raw.{insert_chain_event, upsert_checkpoint}
use meme_launchpad_backend.Ledger.Statements.{
  insert_created_event, upsert_token, insert_graduated_event, mark_graduated,
}
use meme_launchpad_backend.Ledger.Repository.{save_block_range}
use meme_launchpad_backend.Ledger.Spec.{created_spec, graduated_spec}
use meme_launchpad_backend.Ledger.Keeps.{Keeps, save_block_range-keeps}
use meme_launchpad_backend.Ledger.Volume.{IsBooked, trade_spec-IsBooked}

module _ (enc : Encoding) where
  IsBooked-Keeps : Keeps enc IsBooked
  unfolding insert_chain_event upsert_checkpoint created_spec insert_created_event upsert_token
      graduated_spec insert_graduated_event mark_graduated
  IsBooked-Keeps = record {
    keeps_log = λ chain_id contract log d h. record { booked = h.booked };
    keeps_created = λ e d h. record { booked = h.booked };
    keeps_trade = λ e d h. trade_spec-IsBooked enc e d h;
    keeps_graduated = λ e d h. record { booked = h.booked };
    keeps_checkpoint = λ chain_id contract last_block d h. record { booked = h.booked };
  }

  -- If every candle of the eight intervals holds the sum of the token amounts of the trades that fall
  -- into it, then so it does after any block range has been saved, whichever statements failed.
  pub save_block_range-IsBooked :
      (chain_id : ℕ) (contract : String) (last_block : ℕ) (logs : List Log)
      (ps : List ChainProjection) (w : World Ledger)
      → IsBooked w.db
      → IsBooked (save_block_range enc chain_id contract last_block logs ps w).1.db
  save_block_range-IsBooked chain_id contract last_block logs ps w h =
      save_block_range-keeps enc IsBooked IsBooked-Keeps chain_id contract last_block logs ps w h
