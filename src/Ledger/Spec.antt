-- ===== src/Ledger/Spec.antt =====
-- What a block range does to the tables when no statement fails: a specification with no
-- transaction, no faults and no errors.
use meme_launchpad_backend.Common.{
  ℕ, String, Option, none, some, List, [], ◌∷◌, ◌==◌, nat_eq, if◌then◌else◌,
}
use meme_launchpad_backend.Candle.{intervals}
use meme_launchpad_backend.Ledger.Rows.{
  Encoding, Log, TokenCreatedProjection, TokenTradeProjection, TokenGraduatedProjection,
  ChainProjection, Ledger,
}
use meme_launchpad_backend.Ledger.Raw.{insert_chain_event, upsert_checkpoint}
use meme_launchpad_backend.Ledger.Statements.{
  int_string, price_string, insert_created_event, upsert_token, insert_trade_event, insert_trade,
  update_totals, insert_graduated_event, mark_graduated, upsert_kline,
}
use meme_launchpad_backend.Ledger.Repository.{kline_key}

module _ (enc : Encoding) where
  unfoldable pub kline_spec : List String → TokenTradeProjection → Ledger → Ledger
  kline_spec [] e d = d
  kline_spec (i ∷ rest) e d =
      kline_spec rest e
        (upsert_kline (kline_key enc e i) (price_string e.bnb_amount e.token_amount)
          (int_string e.token_amount) d).1

  unfoldable pub created_spec : TokenCreatedProjection → Ledger → Ledger
  created_spec e d = (upsert_token enc e (insert_created_event enc e d).1).1

  unfoldable pub trade_spec : TokenTradeProjection → Ledger → Ledger
  trade_spec e d =
      let (rows, d') = insert_trade enc e (insert_trade_event enc e d).1 in
      let totals = (update_totals enc e d').1 in
      if rows == 0 then totals else kline_spec intervals e totals

  unfoldable pub graduated_spec : TokenGraduatedProjection → Ledger → Ledger
  graduated_spec e d = (mark_graduated enc e (insert_graduated_event enc e d).1).1

  unfoldable pub projection_spec : ChainProjection → Ledger → Ledger
  projection_spec p d = elim p.token_created [
    | some e ↦ created_spec e d
    | none ↦ elim p.token_bought [
      | some e ↦ trade_spec e d
      | none ↦ elim p.token_sold [
        | some e ↦ trade_spec e d
        | none ↦ elim p.token_graduated [ some e ↦ graduated_spec e d | none ↦ d ]
      ]
    ]
  ]

  unfoldable pub projections_spec : List ChainProjection → Ledger → Ledger
  projections_spec [] d = d
  projections_spec (p ∷ ps) d = projections_spec ps (projection_spec p d)

  unfoldable pub logs_spec : ℕ → String → List Log → Ledger → Ledger
  logs_spec chain_id contract [] d = d
  logs_spec chain_id contract (log ∷ logs) d =
      logs_spec chain_id contract logs (insert_chain_event enc chain_id contract log d).1

  unfoldable pub save_spec : ℕ → String → ℕ → List Log → List ChainProjection → Ledger → Ledger
  save_spec chain_id contract last_block logs ps d =
      (upsert_checkpoint enc chain_id contract last_block
        (projections_spec ps (logs_spec chain_id contract logs d))).1

  -- The cases of `projection_spec`, for a property of what each kind of event does.
  pub projection_spec-cases :
      (P : (Ledger → Ledger) → Type 0) (p : ChainProjection)
      → ((e : TokenCreatedProjection) → P (created_spec e))
      → ((e : TokenTradeProjection) → P (trade_spec e))
      → ((e : TokenGraduatedProjection) → P (graduated_spec e))
      → P (λ d. d)
      → P (projection_spec p)
  unfolding projection_spec
  projection_spec-cases P p c t g h =
      cases p.token_created p.token_bought p.token_sold p.token_graduated
    where
      cases :
          (oc : Option TokenCreatedProjection) (ob os : Option TokenTradeProjection)
          (og : Option TokenGraduatedProjection)
          → P (λ d.
            projection_spec
              (record {
                token_created = oc;
                token_bought = ob;
                token_sold = os;
                token_graduated = og;
              })
              d)
      cases (some e) ob os og = c e
      cases none (some e) os og = t e
      cases none none (some e) og = t e
      cases none none none (some e) = g e
      cases none none none none = h
