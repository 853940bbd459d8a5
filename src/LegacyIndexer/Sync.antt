-- ===== src/LegacyIndexer/Sync.antt =====
-- `syncBlockRange` and the polling loop of `syncHistoricalBlocks` in
-- apps/indexer/internal/indexer/indexer.go. The RPC client and the ABI are those of the rebuild's
-- indexer: `header_time` is the time of `BlockByNumber`. `lower_go` is `strings.ToLower`.
pub mod Batch
pub mod Loss
use Prim.Native.String
use text.Mathlib.Text.{find?}
use meme_launchpad_backend.Fallible.{error_text}
use meme_launchpad_backend.Common.{
  ℕ, zero, suc, ◌+◌, ◌-◌, ◌/◌, ◌*◌, ◌%◌, String, Bool, true, false, ◌&&◌, ◌||◌, Option, none, some,
  List, [], ◌∷◌, ◌++◌, ◌==◌, nat_eq, ltb, leb, if◌then◌else◌,
}
use meme_launchpad_backend.Postgres.Table.{Table}
use meme_launchpad_backend.Postgres.Transaction.{Error, msg, wrap, Result, ok, err, wrapped, World}
use meme_launchpad_backend.Ledger.Rows.{Encoding, Log}
use meme_launchpad_backend.ChainIndexer.Client.{Client, Abi}
use meme_launchpad_backend.ChainIndexer.Decode.{block_time}
use meme_launchpad_backend.ChainIndexer.Sync.{u64, range_end}
use meme_launchpad_backend.LegacyIndexer.Rows.{TokenGraduatedEvent, Tables}
use meme_launchpad_backend.LegacyIndexer.Parse.{
  Events, no_events, collected, skipped, panicked, handle_log,
}
use meme_launchpad_backend.LegacyIndexer.Database.{
  batch_insert_token_created_events, batch_insert_token_bought_events,
  batch_insert_token_sold_events, insert_token_graduated_event, get_last_synced_block,
  update_last_synced_block,
}

-- `strings.Contains`
abbrev pub mentions : String → String → Bool
mentions text part = elim (find? text part) [ none ↦ false | some _ ↦ true ]

unfoldable pub limit_exceeded : Error → Bool
limit_exceeded e =
    mentions (error_text e) "limit exceeded" || mentions (error_text e) "query returned more than"

-- `config.ChainConfig`, in the fields that the loop reads
pub record ChainConfig : Type 0 where
  pub core_contract : String
  pub start_block : ℕ
  pub block_batch_size : ℕ

-- The variables of `syncHistoricalBlocks`, `idx.currentBatchSize`, the calls made to the client, and
-- the database.
pub record Poller : Type 0 where
  pub current : ℕ
  pub batch : ℕ
  pub successes : ℕ
  pub calls : ℕ
  pub world : World Tables

module _ (lower_go : String → String) (enc : Encoding) (abi : Abi) (client : Client)
    (quotient : ℕ → ℕ → ℕ) where
  -- The loop over the logs, with the calls made; `none` is a panic. A block whose time is not found
  -- is skipped.
  unfoldable pub classify : List Log → Table ℕ ℕ → ℕ → Events → Option (Events × ℕ)
  classify [] times calls evs = some (evs, calls)
  classify (log ∷ logs) times calls evs =
      let (found, calls', times') = block_time client log.block_number times calls in
      elim found [
        | err _ ↦ classify logs times' calls' evs
        | ok time ↦ elim (handle_log enc abi log time evs) [
          | collected evs' ↦ classify logs times' calls' evs'
          | skipped ↦ classify logs times' calls' evs
          | panicked ↦ none
        ]
      ]

  -- Graduations are written one by one; errors are only logged.
  unfoldable pub insert_graduated : List TokenGraduatedEvent → World Tables → World Tables
  insert_graduated [] w = w
  insert_graduated (e ∷ es) w =
      insert_graduated es (insert_token_graduated_event enc.lower quotient e w).1

  -- the writes of `syncBlockRange`, whose errors are only logged
  unfoldable pub write_events : Events → World Tables → World Tables
  unfolding insert_graduated
  write_events evs w =
      let w1 = (batch_insert_token_created_events enc.lower quotient evs.created w).1 in
      let w2 = (batch_insert_token_bought_events enc.lower quotient evs.bought w1).1 in
      let w3 = (batch_insert_token_sold_events enc.lower quotient evs.sold w2).1 in
      insert_graduated evs.graduated w3

  -- How `syncBlockRange` ends: without an error, with one, or by a panic.
  unfoldable pub sync_block_range :
      ℕ → ℕ → ℕ → World Tables → Option (Result (Unit {0}) × ℕ × World Tables)
  sync_block_range from to calls w = elim (client.filter_logs calls from to) [
    | err e ↦ some (wrapped "failed to filter logs" (err e), calls + 1, w)
    | ok [] ↦ some (ok tt, calls + 1, w)
    | ok (log ∷ logs) ↦ elim (classify (log ∷ logs) [] (calls + 1) no_events) [
      | none ↦ none
      | some (evs, calls') ↦ some (ok tt, calls', write_events evs w)
    ]
  ]

  module _ (cfg : ChainConfig) where
    -- `GetLastSyncedBlock` and the choice of the first block in `Start`
    unfoldable pub start_from : World Tables → ℕ × World Tables
    start_from w =
        let (last, w') = get_last_synced_block (lower_go cfg.core_contract) w in
        (if ltb 0 last then (last + 1) % u64 else cfg.start_block, w')

    -- after an error of `syncBlockRange`
    unfoldable pub after_error : Error → Poller → Poller
    unfolding limit_exceeded
    after_error e p =
        if limit_exceeded e
        then record p { batch = if ltb (p.batch / 2) 10 then 10 else p.batch / 2; successes = 0 }
        else p

    -- the gradual return to the configured batch size
    unfoldable pub recover : Poller → Poller
    recover p =
        let n = p.successes + 1 in
        if leb 10 n && ltb p.batch cfg.block_batch_size
        then record p {
          batch =
              let twice = p.batch * 2 % u64 in
              if ltb cfg.block_batch_size twice then cfg.block_batch_size else twice;
          successes = 0;
        }
        else record p { successes = n }

    -- after `syncBlockRange` has returned no error: a failed update of the position is only logged
    unfoldable pub after_success : ℕ → Poller → Poller
    unfolding recover
    after_success to p =
        let q = recover p in
        let (_, w) = update_last_synced_block (lower_go cfg.core_contract) to q.world in
        record q { current = (to + 1) % u64; world = w }

    -- one tick of `syncHistoricalBlocks`; `none` is a panic
    unfoldable pub tick : Poller → Option Poller
    unfolding after_error after_success
    tick p = elim (client.rpc_block_number p.calls) [
      | err _ ↦ some (record p { calls = p.calls + 1 })
      | ok latest ↦
          if ltb latest p.current
          then some (record p { calls = p.calls + 1 })
          else let to = range_end p.current p.batch latest in
            elim (sync_block_range p.current to (p.calls + 1) p.world) [
              | none ↦ none
              | some (r, calls, w) ↦
                  let q = record p { calls = calls; world = w } in
                  some (elim r [ err e ↦ after_error e q | ok _ ↦ after_success to q ])
            ]
    ]
