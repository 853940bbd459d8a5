-- ===== src/Ledger/Refines.antt =====
-- `SaveBlockRange` refines the specification: it does all of it, or nothing.
use meme_launchpad_backend.Common.{
  ℕ, String, ◌≡◌, none, some, Option, List, [], ◌∷◌, ◌==◌, nat_eq, Bool, true, false, if◌then◌else◌,
}
use meme_launchpad_backend.Postgres.Transaction.{ok, M, World, pure}
use meme_launchpad_backend.Postgres.Transaction.Laws.{
  Does, Does-pure, Does-exec, Does-statement, Does-within, Does-bind, Does-then, IsAtomic,
  transact-IsAtomic, transact-calm, calm,
}
use meme_launchpad_backend.Candle.{intervals}
use meme_launchpad_backend.Ledger.Rows.{
  Encoding, Log, TokenCreatedProjection, TokenTradeProjection, TokenGraduatedProjection,
  ChainProjection, Ledger,
}
use meme_launchpad_backend.Ledger.Repository.{
  upsert_klines_from, upsert_klines, apply_token_created, apply_token_trade, apply_token_graduated,
  apply_projection, insert_logs, apply_projections, save_body, save_block_range,
}
use meme_launchpad_backend.Ledger.Spec.{
  kline_spec, created_spec, trade_spec, graduated_spec, projection_spec, projections_spec,
  logs_spec, save_spec,
}

Does-if :
    {D : Type 0} (b : Bool) {m n : M D Unit} {f g : D → D}
    → Does m (λ d. (tt, f d))
    → Does n (λ d. (tt, g d))
    → Does (if b then m else n) (λ d. (tt, if b then f d else g d))
Does-if true h k = h
Does-if false h k = k

module _ (enc : Encoding) where
  upsert_klines_from-Does :
      (is : List String) (e : TokenTradeProjection)
      → Does (upsert_klines_from enc is e) (λ d. (tt, kline_spec enc is e d))
  unfolding upsert_klines_from kline_spec
  upsert_klines_from-Does [] e = Does-pure tt
  upsert_klines_from-Does (i ∷ rest) e = Does-then (Does-exec _) (upsert_klines_from-Does rest e)

  apply_token_created-Does :
      (e : TokenCreatedProjection)
      → Does (apply_token_created enc e) (λ d. (tt, created_spec enc e d))
  unfolding apply_token_created created_spec
  apply_token_created-Does e = Does-then (Does-statement _ _) (Does-statement _ _)

  apply_token_trade-Does :
      (e : TokenTradeProjection) → Does (apply_token_trade enc e) (λ d. (tt, trade_spec enc e d))
  unfolding apply_token_trade trade_spec upsert_klines
  apply_token_trade-Does e = Does-then (Does-statement _ _) (
      Does-bind (Does-statement _ _) (λ rows.
        Does-then (Does-statement _ _) (
          Does-if (rows == 0) (Does-pure tt)
            (Does-within _ (upsert_klines_from-Does intervals e)))))

  apply_token_graduated-Does :
      (e : TokenGraduatedProjection)
      → Does (apply_token_graduated enc e) (λ d. (tt, graduated_spec enc e d))
  unfolding apply_token_graduated graduated_spec
  apply_token_graduated-Does e = Does-then (Does-statement _ _) (Does-statement _ _)

  pure-Does : Does {D = Ledger} (pure {A = Unit {0}} tt) (λ d. (tt, d))
  pure-Does = Does-pure tt

  pub apply_projection-Does :
      (p : ChainProjection) → Does (apply_projection enc p) (λ d. (tt, projection_spec enc p d))
  unfolding apply_projection projection_spec
  apply_projection-Does p = cases p.token_created p.token_bought p.token_sold p.token_graduated
    where
      cases :
          (c : Option TokenCreatedProjection) (b s : Option TokenTradeProjection)
          (g : Option TokenGraduatedProjection)
          → let q : ChainProjection = record {
            token_created = c;
            token_bought = b;
            token_sold = s;
            token_graduated = g;
          } in
            Does
              (unfold apply_projection in apply_projection enc q)
              (λ d. (tt, unfold projection_spec in projection_spec enc q d))
      cases (some e) b s g = apply_token_created-Does e
      cases none (some e) s g = apply_token_trade-Does e
      cases none none (some e) g = apply_token_trade-Does e
      cases none none none (some e) = apply_token_graduated-Does e
      cases none none none none = pure-Does

  apply_projections-Does :
      (ps : List ChainProjection)
      → Does (apply_projections enc ps) (λ d. (tt, projections_spec enc ps d))
  unfolding apply_projections projections_spec
  apply_projections-Does [] = Does-pure tt
  apply_projections-Does (p ∷ ps) = Does-then (apply_projection-Does p) (apply_projections-Does ps)

  insert_logs-Does :
      (chain_id : ℕ) (contract : String) (logs : List Log)
      → Does
          (insert_logs enc chain_id contract logs)
          (λ d. (tt, logs_spec enc chain_id contract logs d))
  unfolding insert_logs logs_spec
  insert_logs-Does chain_id contract [] = Does-pure tt
  insert_logs-Does chain_id contract (log ∷ logs) =
      Does-then (Does-statement _ _) (insert_logs-Does chain_id contract logs)

  save_body-Does :
      (chain_id : ℕ) (contract : String) (last_block : ℕ) (logs : List Log)
      (ps : List ChainProjection)
      → Does
          (save_body enc chain_id contract last_block logs ps)
          (λ d. (tt, save_spec enc chain_id contract last_block logs ps d))
  unfolding save_body save_spec
  save_body-Does chain_id contract last_block logs ps =
      Does-then (insert_logs-Does chain_id contract logs)
        (Does-then (apply_projections-Does ps) (Does-statement _ _))

  -- Saving a block range either returns no error and leaves in the tables all that the specification
  -- does, the raw logs, every projection and the checkpoint; or it returns an error and leaves the
  -- tables exactly as they were. This holds whichever statements fail.
  pub save_block_range-IsAtomic :
      (chain_id : ℕ) (contract : String) (last_block : ℕ) (logs : List Log)
      (ps : List ChainProjection) (w : World Ledger)
      → IsAtomic
          (save_block_range enc chain_id contract last_block logs ps w)
          w
          (λ d. (tt, save_spec enc chain_id contract last_block logs ps d))
  unfolding save_block_range
  save_block_range-IsAtomic chain_id contract last_block logs ps w =
      transact-IsAtomic _ _ _ (save_body-Does chain_id contract last_block logs ps) w

  -- When no statement fails, saving a block range returns no error and leaves in the tables all that
  -- the specification does.
  pub save_block_range-calm :
      (chain_id : ℕ) (contract : String) (last_block : ℕ) (logs : List Log)
      (ps : List ChainProjection) (d : Ledger)
      → save_block_range enc chain_id contract last_block logs ps (calm d)
        ≡ (ok tt, calm (save_spec enc chain_id contract last_block logs ps d))
  unfolding save_block_range
  save_block_range-calm chain_id contract last_block logs ps d =
      transact-calm _ _ _ (save_body-Does chain_id contract last_block logs ps) d
