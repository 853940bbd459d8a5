-- ===== src/ChainIndexer/Sync/Checkpoint.antt =====
-- Which of the repository's statements touch the checkpoints, and what is read back from them.
use meme_launchpad_backend.Common.{
  ℕ, ◌≡◌, refl, ◌∙◌, String, some, List, [], ◌∷◌, ◌==◌, nat_eq, string_eq, pair_eq, eq_iff, arith,
  All, Bool-cases, inl, inr,
}
use meme_launchpad_backend.Postgres.Table.{Table, upsert}
use meme_launchpad_backend.Ledger.Rows.{
  Encoding, Log, ChainProjection, TokenTradeProjection, Ledger,
}
use meme_launchpad_backend.Ledger.Raw.{find_checkpoint, insert_chain_event}
use meme_launchpad_backend.Ledger.Statements.{
  trade_type_sell, insert_created_event, upsert_token, insert_trade_event, insert_trade,
  update_totals, insert_graduated_event, mark_graduated, upsert_kline,
}
use meme_launchpad_backend.Ledger.Spec.{
  kline_spec, created_spec, trade_spec, graduated_spec, projection_spec, projection_spec-cases,
  projections_spec, logs_spec,
}

module _ (enc : Encoding) where
  checkpoints-kline_spec :
      (is : List String) (e : TokenTradeProjection) (d : Ledger)
      → (kline_spec enc is e d).checkpoints ≡ d.checkpoints
  unfolding kline_spec upsert_kline
  checkpoints-kline_spec [] e d = refl
  checkpoints-kline_spec (i ∷ is) e d = checkpoints-kline_spec is e _

  checkpoints-insert_trade_event :
      (e : TokenTradeProjection) (d : Ledger)
      → (insert_trade_event enc e d).1.checkpoints ≡ d.checkpoints
  unfolding insert_trade_event
  checkpoints-insert_trade_event e d = elim (Bool-cases (e.trade_type == trade_type_sell)) [
    | inl sale ↦ rw sale refl
    | inr purchase ↦ rw purchase refl
  ]

  checkpoints-trade_spec :
      (e : TokenTradeProjection) (d : Ledger) → (trade_spec enc e d).checkpoints ≡ d.checkpoints
  unfolding trade_spec insert_trade update_totals
  checkpoints-trade_spec e d =
      let logged : Ledger = (insert_trade_event enc e d).1 in
      elim (Bool-cases ((insert_trade enc e logged).0 == 0)) [
        | inl old ↦ rw old (checkpoints-insert_trade_event e d)
        | inr new ↦ rw new (checkpoints-kline_spec _ e _ ∙ checkpoints-insert_trade_event e d)
      ]

  checkpoints-projection_spec :
      (p : ChainProjection) (d : Ledger) → (projection_spec enc p d).checkpoints ≡ d.checkpoints
  unfolding created_spec insert_created_event upsert_token graduated_spec insert_graduated_event
      mark_graduated
  checkpoints-projection_spec p d =
      projection_spec-cases enc (λ f. (f d).checkpoints ≡ d.checkpoints) p (λ e. refl)
        (λ e. checkpoints-trade_spec e d) (λ e. refl) refl

  pub checkpoints-projections_spec :
      (ps : List ChainProjection) (d : Ledger)
      → (projections_spec enc ps d).checkpoints ≡ d.checkpoints
  unfolding projections_spec
  checkpoints-projections_spec [] d = refl
  checkpoints-projections_spec (p ∷ ps) d =
      checkpoints-projections_spec ps _ ∙ checkpoints-projection_spec p d

  pub checkpoints-logs_spec :
      (chain_id : ℕ) (contract : String) (logs : List Log) (d : Ledger)
      → (logs_spec enc chain_id contract logs d).checkpoints ≡ d.checkpoints
  unfolding logs_spec insert_chain_event
  checkpoints-logs_spec chain_id contract [] d = refl
  checkpoints-logs_spec chain_id contract (log ∷ logs) d =
      checkpoints-logs_spec chain_id contract logs _

  -- The addresses of the checkpoints are in lower case, as `upsert_checkpoint` writes them.
  abbrev pub IsLowered : Table (ℕ × String) ℕ → Type 0
  IsLowered = All (λ row. enc.lower row.0.1 ≡ row.0.1)

  pub find_checkpoint-upsert :
      (chain_id : ℕ) (c : String) (block : ℕ) (t : Table (ℕ × String) ℕ)
      → enc.lower (enc.lower c) ≡ enc.lower c
      → IsLowered t
      → find_checkpoint enc chain_id c (upsert (chain_id, enc.lower c) block (λ _. block) t)
        ≡ some block
  unfolding find_checkpoint upsert
  find_checkpoint-upsert chain_id c block [] idem h =
      rw idem (ground (arith, eq_iff (enc.lower c) (enc.lower c)))
  find_checkpoint-upsert chain_id c block (((i, a), b) ∷ t) idem h = ground (
    arith,
    find_checkpoint-upsert chain_id c block t idem h.1,
    eq_iff a (enc.lower c),
    eq_iff (enc.lower a) (enc.lower c),
    eq_iff (enc.lower (enc.lower c)) (enc.lower c),
  )

  pub IsLowered-upsert :
      (chain_id : ℕ) (c : String) (block : ℕ) (t : Table (ℕ × String) ℕ)
      → enc.lower (enc.lower c) ≡ enc.lower c
      → IsLowered t
      → IsLowered (upsert (chain_id, enc.lower c) block (λ _. block) t)
  unfolding upsert
  IsLowered-upsert chain_id c block [] idem h = (idem, tt)
  IsLowered-upsert chain_id c block (((i, a), b) ∷ t) idem h =
      let stored : ℕ × String = (i, a) in
      let key : ℕ × String = (chain_id, enc.lower c) in
      elim (Bool-cases (stored == key)) [
        | inl same ↦ rw same h
        | inr other ↦ rw other (h.0, IsLowered-upsert chain_id c block t idem h.1)
      ]
