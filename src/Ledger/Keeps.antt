-- ===== src/Ledger/Keeps.antt =====
-- Properties of the tables that every statement of `SaveBlockRange` keeps.
use meme_launchpad_backend.Common.{ℕ, String, List, [], ◌∷◌, nat_eq, string_eq, pair_eq, triple_eq}
use meme_launchpad_backend.Postgres.Transaction.{Result, ok, err, World}
use meme_launchpad_backend.Postgres.Transaction.Laws.{IsAtomic}
use meme_launchpad_backend.Ledger.Rows.{
  Encoding, Log, TokenCreatedProjection, TokenTradeProjection, TokenGraduatedProjection,
  ChainProjection, Ledger,
}
use meme_launchpad_backend.Ledger.Raw.{insert_chain_event, upsert_checkpoint}
use meme_launchpad_backend.Ledger.Repository.{save_block_range}
use meme_launchpad_backend.Ledger.Spec.{
  created_spec, trade_spec, graduated_spec, projection_spec, projections_spec, logs_spec, save_spec,
  projection_spec-cases,
}
use meme_launchpad_backend.Ledger.Refines.{save_block_range-IsAtomic}

-- The events of a block range, and its checkpoint, keep a property of the tables.
pub record Keeps (enc : Encoding) (P : Ledger → Type 0) : Type 0 where
  pub keeps_log :
      (chain_id : ℕ) (contract : String) (log : Log) (d : Ledger)
      → P d
      → P (insert_chain_event enc chain_id contract log d).1
  pub keeps_created : (e : TokenCreatedProjection) (d : Ledger) → P d → P (created_spec enc e d)
  pub keeps_trade : (e : TokenTradeProjection) (d : Ledger) → P d → P (trade_spec enc e d)
  pub keeps_graduated :
      (e : TokenGraduatedProjection) (d : Ledger) → P d → P (graduated_spec enc e d)
  pub keeps_checkpoint :
      (chain_id : ℕ) (contract : String) (last_block : ℕ) (d : Ledger)
      → P d
      → P (upsert_checkpoint enc chain_id contract last_block d).1

module _ (enc : Encoding) (P : Ledger → Type 0) (k : Keeps enc P) where
  projections_spec-keeps :
      (ps : List ChainProjection) (d : Ledger) → P d → P (projections_spec enc ps d)
  unfolding projections_spec
  projections_spec-keeps [] d h = h
  projections_spec-keeps (p ∷ ps) d h = projections_spec-keeps ps (projection_spec enc p d) (
      projection_spec-cases enc (λ f. P (f d)) p (λ e. k.keeps_created e d h)
        (λ e. k.keeps_trade e d h) (λ e. k.keeps_graduated e d h) h)

  logs_spec-keeps :
      (chain_id : ℕ) (contract : String) (logs : List Log) (d : Ledger)
      → P d
      → P (logs_spec enc chain_id contract logs d)
  unfolding logs_spec
  logs_spec-keeps chain_id contract [] d h = h
  logs_spec-keeps chain_id contract (log ∷ logs) d h =
      logs_spec-keeps chain_id contract logs _ (k.keeps_log chain_id contract log d h)

  -- Saving a block range keeps the property, whichever statements fail.
  pub save_block_range-keeps :
      (chain_id : ℕ) (contract : String) (last_block : ℕ) (logs : List Log)
      (ps : List ChainProjection) (w : World Ledger)
      → P w.db
      → P (save_block_range enc chain_id contract last_block logs ps w).1.db
  unfolding save_spec
  save_block_range-keeps chain_id contract last_block logs ps w h =
      go (save_block_range enc chain_id contract last_block logs ps w)
        (save_block_range-IsAtomic enc chain_id contract last_block logs ps w)
    where
      after : P (save_spec enc chain_id contract last_block logs ps w.db)
      after = k.keeps_checkpoint chain_id contract last_block _ (
          projections_spec-keeps ps (logs_spec enc chain_id contract logs w.db)
            (logs_spec-keeps chain_id contract logs w.db h))

      go :
          (out : Result (Unit {0}) × World Ledger)
          → IsAtomic out w (λ d. (tt, save_spec enc chain_id contract last_block logs ps d))
          → P out.1.db
      go (ok a, w') (_, same) = rw same after
      go (err e, w') same = rw same h
