-- ===== src/ChainIndexer/Sync.antt =====
-- `VerifyChain`, `nextBlock`, `syncAvailable` and `Run`. Block numbers are `uint64`: sums wrap.
pub mod Checkpoint
pub mod Resume
pub mod Progress
pub mod Overflow
use meme_launchpad_backend.Common.{
  ℕ, zero, suc, ◌+◌, ◌-◌, ◌%◌, ◌^◌, String, Option, none, some, List, [], ◌==◌, nat_eq, ltb, leb,
  if◌then◌else◌,
}
use meme_launchpad_backend.Postgres.Transaction.{Error, msg, wrap, Result, ok, err, wrapped, World}
use meme_launchpad_backend.Ledger.Rows.{Encoding, Log, ChainProjection, Ledger}
use meme_launchpad_backend.Ledger.Repository.{last_synced_block, save_block_range}
use meme_launchpad_backend.ChainIndexer.Client.{Client, Abi, IndexerConfig}
use meme_launchpad_backend.ChainIndexer.Decode.{decode_projections}

abbrev pub u64 : ℕ
u64 = 2 ^ 64

-- `*next + batch - 1`, capped at `latest`
unfoldable pub range_end : ℕ → ℕ → ℕ → ℕ
range_end next batch latest =
    let end = (next + batch + u64 - 1) % u64 in if ltb latest end then latest else end

-- The block to read next, the calls made to the client, and the database.
pub record State : Type 0 where
  pub next : ℕ
  pub calls : ℕ
  pub world : World Ledger

-- How a loop ends; `out_of_fuel` is the model's own.
pub data Outcome : Type 0 where
  done : Outcome
  failed : Error → Outcome
  out_of_fuel : Outcome

module _ (enc : Encoding) (abi : Abi) (client : Client) (cfg : IndexerConfig) (contract : ℕ) where
  -- `VerifyChain`, with the calls made
  unfoldable pub verify_chain : ℕ → Result (Unit {0})
  verify_chain calls = elim (client.rpc_chain_id calls) [
    | err e ↦ wrapped "read RPC chain ID" (err e)
    | ok id ↦ if id == cfg.chain_id then ok tt else err (msg "RPC chain ID")
  ]

  -- `nextBlock`
  unfoldable pub next_block : World Ledger → Result ℕ × World Ledger
  next_block w =
      let (r, w') = last_synced_block enc cfg.chain_id (enc.address_hex contract) w in
      elim r [
        | err e ↦ (err e, w')
        | ok (some last) ↦ (ok ((last + 1) % u64), w')
        | ok none ↦ (ok cfg.start_block, w')
      ]

  -- the end of one round of the loop of `syncAvailable`: SaveBlockRange and `*next = end + 1`
  unfoldable pub save_range :
      ℕ → List Log → List ChainProjection → State → Result (Unit {0}) × State
  save_range end logs ps st =
      let (r, w) =
        save_block_range enc cfg.chain_id (enc.address_hex contract) end logs ps st.world in
      elim r [
        | err e ↦ (wrapped "save logs" (err e), record st { world = w })
        | ok _ ↦ (ok tt, record st { world = w; next = (end + 1) % u64 })
      ]

  -- one round of the loop of `syncAvailable`, up to `latest`
  unfoldable pub sync_range : ℕ → State → Result (Unit {0}) × State
  sync_range latest st =
      let end = range_end st.next cfg.block_batch_size latest in
      elim (client.filter_logs st.calls st.next end) [
        | err e ↦ (wrapped "filter logs" (err e), record st { calls = st.calls + 1 })
        | ok logs ↦
            let (decoded, calls) = decode_projections enc abi client logs (st.calls + 1) in
            elim decoded [
              | err e ↦ (wrapped "decode logs" (err e), record st { calls = calls })
              | ok ps ↦ save_range end logs ps (record st { calls = calls })
            ]
      ]

  -- the loop of `syncAvailable`
  unfoldable pub sync_loop : ℕ → ℕ → State → Outcome × State
  sync_loop zero latest st = (out_of_fuel, st)
  sync_loop (suc fuel) latest st =
      if ltb latest st.next
      then (done, st)
      else let (r, st') = sync_range latest st in
        elim r [ err e ↦ (failed e, st') | ok _ ↦ sync_loop fuel latest st' ]

  unfoldable pub sync_available : ℕ → State → Outcome × State
  sync_available fuel st = elim (client.rpc_block_number st.calls) [
    | err e ↦ (failed (wrap "read latest block" e), record st { calls = st.calls + 1 })
    | ok latest ↦ sync_loop fuel latest (record st { calls = st.calls + 1 })
  ]

  -- The loop of `Run`: one poll for each tick before the context is cancelled.
  unfoldable pub poll : ℕ → ℕ → State → Outcome × State
  poll fuel zero st = (done, st)
  poll fuel (suc ticks) st =
      let (o, st') = sync_available fuel st in
      elim o [
        | done ↦ poll fuel ticks st'
        | failed e ↦ (failed e, st')
        | out_of_fuel ↦ (out_of_fuel, st')
      ]

  unfoldable pub run : ℕ → ℕ → World Ledger → Outcome × World Ledger
  run fuel ticks w = elim (verify_chain 0) [
    | err e ↦ (failed e, w)
    | ok _ ↦
        let (r, w') = next_block w in
        elim r [
          | err e ↦ (failed e, w')
          | ok next ↦
              let (o, st) = poll fuel ticks (record { next = next; calls = 1; world = w' }) in
              (o, st.world)
        ]
  ]
