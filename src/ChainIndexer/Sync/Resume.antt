-- ===== src/ChainIndexer/Sync/Resume.antt =====
-- A restart: the checkpoint that is read back is just before the block that the loop had reached.
use meme_launchpad_backend.Common.{
  ℕ, ◌+◌, ◌-◌, ◌%◌, ◌≤◌, ◌<◌, ◌≡◌, refl, ◌∙◌, String, some, [], arith,
}
use meme_launchpad_backend.Postgres.Transaction.{ok, World, exec, rolled_back}
use meme_launchpad_backend.Ledger.Rows.{Encoding, Ledger}
use meme_launchpad_backend.Ledger.Raw.{find_checkpoint, upsert_checkpoint}
use meme_launchpad_backend.Ledger.Repository.{last_synced_block}
use meme_launchpad_backend.Ledger.Spec.{logs_spec, save_spec}
use meme_launchpad_backend.ChainIndexer.Client.{Client, Abi, IndexerConfig}
use meme_launchpad_backend.ChainIndexer.Sync.{u64, State, next_block, sync_loop}
use meme_launchpad_backend.ChainIndexer.Sync.Progress.{
  FitsBatch, Synced, start, extend, sync_loop_synced,
}
use meme_launchpad_backend.ChainIndexer.Sync.Checkpoint.{
  checkpoints-projections_spec, checkpoints-logs_spec, IsLowered, find_checkpoint-upsert,
  IsLowered-upsert,
}

-- A new process on the committed tables, whose database answers.
abbrev pub restarted : Ledger → World Ledger
restarted d = record { db = d; faults = [] }

module _ (enc : Encoding) (abi : Abi) (client : Client) (cfg : IndexerConfig) (contract : ℕ) where
  -- The process that starts on these tables reads block `b` next.
  record ResumesAt (d : Ledger) (b : ℕ) : Type 0 where
    lowered : IsLowered enc d.checkpoints
    resumes : (next_block enc abi client cfg contract (restarted d)).0 ≡ ok (b % u64)

  next_block-found :
      (d : Ledger) (b : ℕ)
      → find_checkpoint enc cfg.chain_id (enc.address_hex contract) d.checkpoints ≡ some b
      → (next_block enc abi client cfg contract (restarted d)).0 ≡ ok ((b + 1) % u64)
  unfolding next_block last_synced_block rolled_back exec find_checkpoint
  next_block-found d b h = rw (h, next_block) refl

  save_spec-ResumesAt :
      (end : ℕ) (logs : _) (ps : _) (d : Ledger)
      → ((s : String) → enc.lower (enc.lower s) ≡ enc.lower s)
      → IsLowered enc d.checkpoints
      → ResumesAt (save_spec enc cfg.chain_id (enc.address_hex contract) end logs ps d) (end + 1)
  unfolding save_spec upsert_checkpoint
  save_spec-ResumesAt end logs ps d idem h =
      let c = enc.address_hex contract in
      let same =
        checkpoints-projections_spec enc ps (logs_spec enc cfg.chain_id c logs d)
        ∙ checkpoints-logs_spec enc cfg.chain_id c logs d in
      record {
        lowered = rw same (IsLowered-upsert enc cfg.chain_id c end d.checkpoints (idem c) h);
        resumes =
            next_block-found _ end
              (rw same (find_checkpoint-upsert enc cfg.chain_id c end d.checkpoints (idem c) h));
      }

  Synced-ResumesAt :
      {a : ℕ} {d : Ledger} {b : ℕ} {d' : Ledger}
      → ((s : String) → enc.lower (enc.lower s) ≡ enc.lower s)
      → ResumesAt d a
      → Synced enc abi client cfg contract a d b d'
      → ResumesAt d' b
  Synced-ResumesAt idem h start = h
  Synced-ResumesAt idem h (extend end call call' logs ps before order read decoded) =
      save_spec-ResumesAt end logs ps _ idem (Synced-ResumesAt idem h before).lowered

  -- The loop of `syncAvailable` may end in any way, by an error of the client, of the decoder or
  -- of any statement. If a process that starts on the tables before it would read block `next`
  -- first, then a process that starts on the tables that it leaves reads exactly the block that
  -- the loop had reached first. The batch size is positive and such that no sum of block numbers
  -- wraps, `next` is at most one past the latest block, there is more fuel than blocks left, the
  -- stored addresses are in lower case, and `LOWER` is idempotent.
  pub sync_loop-resumes :
      (fuel latest : ℕ) (st : State)
      → ((s : String) → enc.lower (enc.lower s) ≡ enc.lower s)
      → FitsBatch latest cfg.block_batch_size
      → st.next ≤ latest + 1
      → latest + 1 - st.next < fuel
      → IsLowered enc st.world.db.checkpoints
      → (next_block enc abi client cfg contract (restarted st.world.db)).0 ≡ ok st.next
      → let st' = (sync_loop enc abi client cfg contract fuel latest st).1 in
        (next_block enc abi client cfg contract (restarted st'.world.db)).0 ≡ ok st'.next
  sync_loop-resumes fuel latest st idem fits h enough lowered resumes =
      let (o, st') = sync_loop enc abi client cfg contract fuel latest st in
      let (_, _, upto, saved) =
        sync_loop_synced enc abi client cfg contract fuel latest st fits h enough in
      let before : st.next % u64 ≡ st.next = omega arith in
      let after : st'.next % u64 ≡ st'.next = omega arith in
      let from : ResumesAt st.world.db st.next = record {
        lowered = lowered;
        resumes = rw before resumes;
      } in
      rw after at ((Synced-ResumesAt idem from saved).resumes)
