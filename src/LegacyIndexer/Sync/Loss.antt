-- ===== src/LegacyIndexer/Sync/Loss.antt =====
-- The position of the polling loop does not wait for the events to be written.
use meme_launchpad_backend.Common.{
  ℕ, ◌+◌, ◌%◌, ◌≤◌, ◌≡◌, refl, String, some, List, [], ◌∷◌, arith, ltb, false,
}
use meme_launchpad_backend.Postgres.Transaction.{ok, World}
use meme_launchpad_backend.Ledger.Rows.{Encoding, Log}
use meme_launchpad_backend.ChainIndexer.Client.{Client, Abi}
use meme_launchpad_backend.ChainIndexer.Sync.{u64, range_end}
use meme_launchpad_backend.LegacyIndexer.Rows.{Tables}
use meme_launchpad_backend.LegacyIndexer.Parse.{Events, no_events}
use meme_launchpad_backend.LegacyIndexer.Sync.{
  ChainConfig, Poller, classify, sync_block_range, write_events, recover, after_success, tick,
}

module _ (lower_go : String → String) (enc : Encoding) (abi : Abi) (client : Client)
    (quotient : ℕ → ℕ → ℕ) (cfg : ChainConfig) where
  sync_block_range-read :
      (from to calls calls' : ℕ) (logs : List Log) (evs : Events) (w : World Tables)
      → client.filter_logs calls from to ≡ ok logs
      → classify lower_go enc abi client quotient logs [] (calls + 1) no_events ≡ some (evs, calls')
      → (n : ℕ) × (w' : World Tables) × (sync_block_range lower_go enc abi client quotient from to
            calls w
          ≡ some (ok tt, n, w'))
  unfolding sync_block_range
  sync_block_range-read from to calls calls' [] evs w read h =
      (calls + 1, w, rw (read, sync_block_range) refl)
  sync_block_range-read from to calls calls' (log ∷ logs) evs w read h = (
    calls',
    write_events lower_go enc abi client quotient evs w,
    rw (read, sync_block_range) (rw (h, sync_block_range) refl),
  )

  recover-current :
      (p : Poller) → (recover lower_go enc abi client quotient cfg p).current ≡ p.current
  unfolding recover
  recover-current p = ground arith

  -- When the client answers with a latest block that is not before the position, and the logs of
  -- the range are read and parsed, a tick moves the position to the block behind the range,
  -- modulo 2^64, whichever statements of the database fail.
  pub tick-advances :
      (p : Poller) (latest calls' : ℕ) (logs : List Log) (evs : Events)
      → let to = range_end p.current p.batch latest in
        client.rpc_block_number p.calls ≡ ok latest
        → p.current ≤ latest
        → client.filter_logs (p.calls + 1) p.current to ≡ ok logs
        → classify lower_go enc abi client quotient logs [] (p.calls + 1 + 1) no_events
          ≡ some (evs, calls')
        → (p' : Poller) × (tick lower_go enc abi client quotient cfg p ≡ some p')
          × (p'.current ≡ (to + 1) % u64)
  unfolding tick after_success
  tick-advances p latest calls' logs evs answered behind read classified =
      let to = range_end p.current p.batch latest in
      let (n, w', done) =
        sync_block_range-read p.current to (p.calls + 1) calls' logs evs p.world read classified in
      let not_past : ltb latest p.current ≡ false = ground arith in
      (
        after_success lower_go enc abi client quotient cfg to (record p { calls = n; world = w' }),
        rw (answered, tick) (rw (not_past, tick) (rw (done, tick) refl)),
        refl,
      )
