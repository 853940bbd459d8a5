-- ===== src/Ledger/Raw.antt =====
-- The SQL statements that chain_event.go sends for raw logs and checkpoints.
use meme_launchpad_backend.Common.{
  ℕ, String, Option, none, some, [], ◌∷◌, map, ◌==◌, ◌&&◌, nat_eq, string_eq, pair_eq, triple_eq,
  if◌then◌else◌,
}
use meme_launchpad_backend.Postgres.Table.{Table, insert_new, upsert}
use meme_launchpad_backend.Ledger.Rows.{Encoding, Log, ChainEventRow, Ledger}

module _ (enc : Encoding) where
  open enc use {hash_hex, bytes_hex, lower}

  -- SELECT last_synced_block FROM chain_event_checkpoints, with LOWER on both sides
  unfoldable pub find_checkpoint : ℕ → String → Table (ℕ × String) ℕ → Option ℕ
  find_checkpoint chain_id contract [] = none
  find_checkpoint chain_id contract (((c, a), block) ∷ rest) =
      if c == chain_id && lower a == lower contract
      then some block
      else find_checkpoint chain_id contract rest

  unfoldable pub insert_chain_event : ℕ → String → Log → Ledger → Unit {0} × Ledger
  insert_chain_event chain_id contract log d =
      let topics = map hash_hex log.topics in
      let row : ChainEventRow = record {
        contract_address = lower contract;
        block_number = log.block_number;
        block_hash = hash_hex log.block_hash;
        topic0 = elim topics [ [] ↦ "" | t ∷ _ ↦ t ];
        topics = topics;
        log_data = bytes_hex log.log_data;
        removed = log.removed;
      } in
      (
        tt,
        record d {
          chain_events = insert_new (chain_id, hash_hex log.tx_hash, log.index) row d.chain_events;
        },
      )

  unfoldable pub upsert_checkpoint : ℕ → String → ℕ → Ledger → Unit {0} × Ledger
  upsert_checkpoint chain_id contract block d = (
    tt,
    record d { checkpoints = upsert (chain_id, lower contract) block (λ _. block) d.checkpoints },
  )
