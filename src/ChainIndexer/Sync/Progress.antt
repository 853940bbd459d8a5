-- ===== src/ChainIndexer/Sync/Progress.antt =====
-- The loop reads every block once, in order, and ends at the latest one.
use meme_launchpad_backend.Common.{
  ℕ, zero, suc, ◌+◌, ◌-◌, ◌%◌, ◌≤◌, ◌<◌, ◌≡◌, ◌≢◌, refl, List, ltb, arith, Bool-cases, inl, inr,
}
use meme_launchpad_backend.Postgres.Transaction.{wrap, Result, Result-cases, ok, err, World}
use meme_launchpad_backend.Postgres.Transaction.Laws.{IsAtomic}
use meme_launchpad_backend.Ledger.Rows.{Encoding, Log, ChainProjection, Ledger}
use meme_launchpad_backend.Ledger.Repository.{save_block_range}
use meme_launchpad_backend.Ledger.Spec.{save_spec}
use meme_launchpad_backend.Ledger.Refines.{save_block_range-IsAtomic}
use meme_launchpad_backend.ChainIndexer.Client.{Client, Abi, IndexerConfig}
use meme_launchpad_backend.ChainIndexer.Decode.{decode_projections}
use meme_launchpad_backend.ChainIndexer.Sync.{
  u64, range_end, State, Outcome, done, failed, out_of_fuel, save_range, sync_range, sync_loop,
}

-- A batch size for which no sum of block numbers wraps.
abbrev pub FitsBatch : ℕ → ℕ → Type 0
FitsBatch latest batch = (0 < batch) × (latest + batch < u64)

-- With a positive batch size for which no sum of block numbers wraps, and a next block not past
-- the latest, a range is not empty, does not pass the latest block, and has at most a batch of
-- blocks.
pub range_end_bounds :
    (next batch latest : ℕ)
    → FitsBatch latest batch
    → next ≤ latest
    → (next ≤ range_end next batch latest)
      × (range_end next batch latest ≤ latest)
      × (range_end next batch latest < next + batch)
unfolding range_end
range_end_bounds next batch latest f h = ground arith

module _ (enc : Encoding) (abi : Abi) (client : Client) (cfg : IndexerConfig) (contract : ℕ) where
  -- The tables `d'` come from `d` by saving ranges that follow one another from block `a` up to, not
  -- including, block `b`; the logs of each are what the client returned for just that range, and the
  -- projections are those decoded from them.
  pub data Synced (a : ℕ) (d : Ledger) : ℕ → Ledger → Type 0 where
    start : Synced a d a d
    extend :
        {b : ℕ} {d' : Ledger} (end call call' : ℕ) (logs : List Log) (ps : List ChainProjection)
        → Synced a d b d'
        → b ≤ end
        → client.filter_logs call b end ≡ ok logs
        → decode_projections enc abi client logs (call + 1) ≡ (ok ps, call')
        → Synced a d
            (end + 1)
            (save_spec enc cfg.chain_id (enc.address_hex contract) end logs ps d')

  -- What one round has done: it goes forward and saves one more range, or fails and changes neither
  -- the tables nor the next block.
  abbrev Round : ℕ → State → Result (Unit {0}) × State → Type 0
  Round latest st (ok _, st') =
      (st.next < st'.next)
      × (st'.next ≤ latest + 1)
      × ((a : ℕ) (d : Ledger) → Synced a d st.next st.world.db → Synced a d st'.next st'.world.db)
  Round latest st (err e, st') = (st'.next ≡ st.next) × (st'.world.db ≡ st.world.db)

  save_range-Round :
      (latest end call call' : ℕ) (logs : List Log) (ps : List ChainProjection) (st : State)
      → latest + 1 < u64
      → st.next ≤ end
      → end ≤ latest
      → client.filter_logs call st.next end ≡ ok logs
      → decode_projections enc abi client logs (call + 1) ≡ (ok ps, call')
      → Round latest st (save_range enc abi client cfg contract end logs ps st)
  unfolding save_range
  save_range-Round latest end call call' logs ps st small from to read decoded =
      go (save_block_range enc cfg.chain_id (enc.address_hex contract) end logs ps st.world)
        (save_block_range-IsAtomic enc cfg.chain_id (enc.address_hex contract) end logs ps st.world)
    where
      same_end : (end + 1) % u64 ≡ end + 1
      same_end = omega arith

      go :
          (out : Result (Unit {0}) × World Ledger)
          → IsAtomic out st.world
              (λ d. (tt, save_spec enc cfg.chain_id (enc.address_hex contract) end logs ps d))
          → Round latest st (elim out.0 [
            | err e ↦ (err (wrap "save logs" e), record st { world = out.1 })
            | ok _ ↦ (ok tt, record st { world = out.1; next = (end + 1) % u64 })
          ])
      go (ok u, w) (_, same) =
          rw (same_end, same)
            (omega arith, omega arith, λ a d h. extend end call call' logs ps h from read decoded)
      go (err e, w) same = (refl, same)

  sync_range-Round :
      (latest : ℕ) (st : State)
      → FitsBatch latest cfg.block_batch_size
      → st.next ≤ latest
      → Round latest st (sync_range enc abi client cfg contract latest st)
  unfolding sync_range
  sync_range-Round latest st fits h =
      let end : ℕ = range_end st.next cfg.block_batch_size latest in
      let bounds = range_end_bounds st.next cfg.block_batch_size latest fits h in
      elim (Result-cases (client.filter_logs st.calls st.next end)) [
        | inr (e, unread) ↦ rw (unread, sync_range) (refl, refl)
        | inl (logs, read) ↦
            let decoding = decode_projections enc abi client logs (st.calls + 1) in
            elim (Result-cases decoding.0) [
              | inr (e, bad) ↦ rw (read, sync_range) (rw (bad, sync_range) (refl, refl))
              | inl (ps, good) ↦
                  rw (read, sync_range)
                    (rw (good, sync_range)
                      (save_range-Round latest end st.calls decoding.1 logs ps
                        (record st { calls = decoding.1 }) (omega arith) bounds.0 bounds.1 read
                        (λ i. (good i, decoding.1))))
            ]
      ]

  -- What the loop has done by its end: it has not run out of fuel, it is past the latest block if it
  -- ended without an error and never more than one past it, and it has saved every block from `a` to just before the next one.
  abbrev pub Swept : ℕ → Ledger → ℕ → Outcome × State → Type 0
  Swept a d latest (o, st) =
      (o ≢ out_of_fuel)
      × (o ≡ done → st.next ≡ latest + 1)
      × (st.next ≤ latest + 1)
      × Synced a d st.next st.world.db

  sync_loop-Swept :
      (fuel latest a : ℕ) (d : Ledger) (st : State)
      → FitsBatch latest cfg.block_batch_size
      → st.next ≤ latest + 1
      → latest + 1 - st.next < fuel
      → Synced a d st.next st.world.db
      → Swept a d latest (sync_loop enc abi client cfg contract fuel latest st)
  unfolding sync_loop
  sync_loop-Swept zero latest a d st fits h enough so_far = absurd (omega arith)
  sync_loop-Swept (suc fuel) latest a d st fits h enough so_far =
      elim (Bool-cases (ltb latest st.next)) [
        | inl past ↦ rw past ((λ e. cc), (λ e. ground arith), h, so_far)
        | inr left ↦ rw left (
            go (sync_range enc abi client cfg contract latest st)
              (sync_range-Round latest st fits (ground arith))
              (λ st' p q. sync_loop-Swept fuel latest a d st' fits p q))
      ]
    where
      go :
          (out : Result (Unit {0}) × State)
          → Round latest st out
          → ((st' : State)
              → st'.next ≤ latest + 1
              → latest + 1 - st'.next < fuel
              → Synced a d st'.next st'.world.db
              → Swept a d latest (sync_loop enc abi client cfg contract fuel latest st'))
          → Swept a d latest (elim out.0 as (λ x. Outcome × State) [
            | ok _ ↦ sync_loop enc abi client cfg contract fuel latest out.1
            | err e ↦ (failed e, out.1)
          ])
      go (ok _, st') (forward, upto, saved) rec = rec st' upto (omega arith) (saved a d so_far)
      go (err e, st') (same_next, same_db) rec =
          ((λ e. cc), (λ e. cc), rw same_next h, rw (same_next, same_db) so_far)

  -- With a positive batch size for which no sum of block numbers wraps, a next block at most one
  -- past the latest, and more fuel than there are blocks left, the loop of `syncAvailable` does
  -- not run out of fuel. When it ends without an error it has passed the latest block, and it
  -- never goes further. However it ends, the tables come from those at its start by saving ranges
  -- that follow one another without a gap from the first block to just before the next one.
  pub sync_loop_synced :
      (fuel latest : ℕ) (st : State)
      → FitsBatch latest cfg.block_batch_size
      → st.next ≤ latest + 1
      → latest + 1 - st.next < fuel
      → Swept st.next st.world.db latest (sync_loop enc abi client cfg contract fuel latest st)
  sync_loop_synced fuel latest st fits h enough =
      sync_loop-Swept fuel latest st.next st.world.db st fits h enough start
