-- ===== src/Tests/Rebuild.antt =====
-- The theorems about the rebuild's indexer and its repository at concrete inputs.
use meme_launchpad_backend.Common.{
  ◌≡◌, refl, String, [], ◌∷◌, arith, ◌==◌, Bool-cases, inl, inr, string_eq,
}
use meme_launchpad_backend.Postgres.Transaction.{ok, Tx}
use meme_launchpad_backend.Postgres.Transaction.Laws.{IsAtomic, at_ease}
use meme_launchpad_backend.Postgres.Table.{lookup}
use meme_launchpad_backend.Candle.{align_time}
use meme_launchpad_backend.Candle.Bounds.{IsOpening, align_time-IsOpening}
use meme_launchpad_backend.Ledger.Rows.{Ledger}
use meme_launchpad_backend.Ledger.Raw.{find_checkpoint}
use meme_launchpad_backend.Ledger.Repository.{last_synced_block, save_block_range}
use meme_launchpad_backend.Ledger.Spec.{save_spec, projection_spec}
use meme_launchpad_backend.Ledger.Refines.{save_block_range-IsAtomic, apply_projection-Does}
use meme_launchpad_backend.Ledger.Volume.{IsBooked, kline_volume, trade_volume}
use meme_launchpad_backend.Ledger.Accounting.{save_block_range-IsBooked}
use meme_launchpad_backend.Ledger.Shape.{AreShaped, save_block_range-AreShaped}
use meme_launchpad_backend.Ledger.Replay.{apply_projection-twice}
use meme_launchpad_backend.ChainIndexer.Sync.{next_block, sync_loop}
use meme_launchpad_backend.ChainIndexer.Sync.Progress.{Swept, sync_loop_synced}
use meme_launchpad_backend.ChainIndexer.Sync.Resume.{restarted, sync_loop-resumes}
use meme_launchpad_backend.Postgres.Transaction.{rolled_back, exec}
use meme_launchpad_backend.Tests.{
  small, enc, abi, noon, purchase_log, client, config, empty, shaky, bought, at_start,
}

save_block_range-IsAtomic_example :
    IsAtomic
      (save_block_range enc 97 "0xAB" 4 (purchase_log ∷ []) (bought ∷ []) shaky)
      shaky
      (λ d. (tt, save_spec enc 97 "0xAB" 4 (purchase_log ∷ []) (bought ∷ []) d))
save_block_range-IsAtomic_example =
    save_block_range-IsAtomic enc 97 "0xAB" 4 (purchase_log ∷ []) (bought ∷ []) shaky

empty-IsBooked : IsBooked empty
unfolding kline_volume trade_volume lookup
empty-IsBooked = record { booked = λ k listed. refl }

save_block_range-IsBooked_example :
    IsBooked (save_block_range enc 97 "0xAB" 4 (purchase_log ∷ []) (bought ∷ []) shaky).1.db
save_block_range-IsBooked_example =
    save_block_range-IsBooked enc 97 "0xAB" 4 (purchase_log ∷ []) (bought ∷ []) shaky empty-IsBooked

empty-AreShaped : AreShaped empty
empty-AreShaped = record { shaped = tt }

save_block_range-AreShaped_example :
    AreShaped (save_block_range enc 97 "0xAB" 4 (purchase_log ∷ []) (bought ∷ []) shaky).1.db
save_block_range-AreShaped_example =
    save_block_range-AreShaped enc 97 "0xAB" 4 (purchase_log ∷ []) (bought ∷ []) shaky
      empty-AreShaped

-- a transaction after one purchase
abbrev once : Tx Ledger
once = at_ease (projection_spec enc bought empty)

apply_projection-twice_example : projection_spec enc bought once.tables ≡ once.tables
apply_projection-twice_example =
    apply_projection-twice enc bought (at_ease empty) once once
      (at_ease (projection_spec enc bought once.tables))
      ((apply_projection-Does enc bought).run empty) refl
      ((apply_projection-Does enc bought).run once.tables)

align_time-IsOpening_example : IsOpening noon (align_time noon "1w") 604800
align_time-IsOpening_example = align_time-IsOpening noon "1w" (omega arith)

sync_loop_synced_example :
    Swept enc abi client config 171 3 empty 5 (sync_loop enc abi client config 171 4 5 at_start)
sync_loop_synced_example =
    sync_loop_synced enc abi client config 171 4 5 at_start (omega arith, omega arith) (omega arith)
      (omega arith)

small-small : (s : String) → small (small s) ≡ small s
small-small s = elim (Bool-cases (s == "0xAB")) [
  | inl upper ↦ rw upper refl
  | inr other ↦ rw (other, other) refl
]

starts_at_three : (next_block enc abi client config 171 (restarted empty)).0 ≡ ok 3
unfolding next_block last_synced_block rolled_back exec find_checkpoint
starts_at_three = refl

sync_loop-resumes_example :
    (next_block enc abi client config 171
      (restarted (sync_loop enc abi client config 171 4 5 at_start).1.world.db)).0
    ≡ ok (sync_loop enc abi client config 171 4 5 at_start).1.next
sync_loop-resumes_example =
    sync_loop-resumes enc abi client config 171 4 5 at_start small-small (omega arith, omega arith)
      (omega arith) (omega arith) tt starts_at_three
