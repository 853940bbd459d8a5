-- ===== src/Tests/Legacy.antt =====
-- The theorems about the legacy indexer at concrete inputs.
use meme_launchpad_backend.Common.{
  ◌+◌, ◌*◌, ◌%◌, ◌^◌, ◌≡◌, refl, some, [], ◌∷◌, arith, nat_eq, string_eq, pair_eq,
}
use meme_launchpad_backend.Postgres.Table.{lookup}
use meme_launchpad_backend.Candle.{align_time_to_interval}
use meme_launchpad_backend.Ledger.Rows.{KlineKey}
use meme_launchpad_backend.ChainIndexer.Decode.{topic_address, block_time}
use meme_launchpad_backend.ChainIndexer.Sync.{range_end}
use meme_launchpad_backend.LegacyIndexer.Database.{
  insert_token_bought_event, insert_token_sold_event,
}
use meme_launchpad_backend.LegacyIndexer.Database.Recount.{
  healthy, volume_at, bought_rows, bought_twice_recounts,
}
use meme_launchpad_backend.LegacyIndexer.Database.Klines.{Ends}
use meme_launchpad_backend.LegacyIndexer.Database.Commit.{
  IsCommitted, sold_rows, trade_events-AreCommitted,
}
use meme_launchpad_backend.LegacyIndexer.Parse.{Events, no_events, handle_log}
use meme_launchpad_backend.LegacyIndexer.Sync.{
  ChainConfig, Poller, classify, sync_block_range, limit_exceeded, after_error, tick,
}
use meme_launchpad_backend.LegacyIndexer.Sync.Batch.{IsSized, tick-IsSized}
use meme_launchpad_backend.LegacyIndexer.Sync.Loss.{tick-advances}
use meme_launchpad_backend.Tests.{
  small, enc, abi, purchase_log, client, limited, quotient, noon, empty_tables, shaky_tables,
  purchase_event, sale_event,
}

trade_events-AreCommitted_example :
    IsCommitted
      (insert_token_bought_event small quotient purchase_event shaky_tables)
      shaky_tables
      (λ d d'.
        Ends small quotient "0xAB" noon
          (10 ^ 18)
          (5 * 10 ^ 18)
          (bought_rows small quotient purchase_event d)
          d')
    × IsCommitted
        (insert_token_sold_event small quotient sale_event shaky_tables)
        shaky_tables
        (λ d d'.
          Ends small quotient "0xAB" noon
            (10 ^ 18)
            (5 * 10 ^ 18)
            (sold_rows small quotient sale_event d)
            d')
trade_events-AreCommitted_example =
    trade_events-AreCommitted small quotient purchase_event sale_event shaky_tables

bought_twice_recounts_example :
    let k : KlineKey = ("0xAB", "1h", align_time_to_interval noon "1h") in
    let once = (insert_token_bought_event small quotient purchase_event (healthy empty_tables)).1 in
    let twice = (insert_token_bought_event small quotient purchase_event once).1 in
    (volume_at k once.db ≡ volume_at k empty_tables + 5 * 10 ^ 18)
    × (volume_at k twice.db ≡ volume_at k empty_tables + 5 * 10 ^ 18 + 5 * 10 ^ 18)
    × (twice.db.trades ≡ once.db.trades)
bought_twice_recounts_example =
    bought_twice_recounts small quotient purchase_event empty_tables "1h" refl refl

abbrev legacy : ChainConfig
legacy = record { core_contract = "0xAB"; start_block = 3; block_batch_size = 100 }

-- A position before block 3, after nine reads without an error.
abbrev poller : Poller
poller = record { current = 3; batch = 60; successes = 9; calls = 0; world = shaky_tables }

halved_after_refusal :
    tick small enc abi limited quotient legacy poller
    ≡ some (record poller { batch = 30; successes = 0; calls = 2 })
unfolding tick sync_block_range after_error limit_exceeded range_end
halved_after_refusal = refl

tick-IsSized_example :
    IsSized small enc abi limited quotient legacy
      (record poller { batch = 30; successes = 0; calls = 2 })
tick-IsSized_example =
    tick-IsSized small enc abi limited quotient legacy poller
      (record poller { batch = 30; successes = 0; calls = 2 }) (omega arith)
      (omega arith, omega arith) halved_after_refusal

abbrev one_purchase : Events
one_purchase = record no_events { bought = purchase_event ∷ [] }

one_purchase_read :
    classify small enc abi client quotient (purchase_log ∷ []) [] 2 no_events
    ≡ some (one_purchase, 3)
unfolding classify block_time handle_log topic_address lookup
one_purchase_read = refl

tick-advances_example :
    (p' : Poller) × (tick small enc abi client quotient legacy poller ≡ some p')
    × (p'.current ≡ (range_end 3 60 5 + 1) % 2 ^ 64)
tick-advances_example =
    tick-advances small enc abi client quotient legacy poller 5 3 (purchase_log ∷ []) one_purchase
      refl (omega arith) refl one_purchase_read
