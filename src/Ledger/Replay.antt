-- ===== src/Ledger/Replay.antt =====
-- A projection that is applied again, as when a block range is read again after a restart.
use meme_launchpad_backend.Common.{
  ℕ, String, ◌≡◌, refl, sym, ap, ◌∙◌, List, [], ◌∷◌, arith, ◌==◌, nat_eq, string_eq, triple_eq,
  pair_eq, true, false, Bool-cases, inl, inr, if◌then◌else◌, Comparable,
}
use meme_launchpad_backend.Postgres.Table.{
  Table, lookup, upsert, insert_new, rows_inserted, update_where, insert_new-insert_new,
  upsert-upsert, update_where-update_where,
}
use meme_launchpad_backend.Postgres.Transaction.{ok, Tx}
use meme_launchpad_backend.Candle.{intervals}
use meme_launchpad_backend.Ledger.Rows.{
  Encoding, TokenCreatedProjection, TokenTradeProjection, TokenGraduatedProjection, ChainProjection,
  KlineRow, KlineKey, Ledger,
}
use meme_launchpad_backend.Ledger.Statements.{
  trade_type_sell, int_string, price_string, recreated, created_row, insert_created_event,
  upsert_token, insert_trade_event, insert_trade, update_totals, insert_graduated_event,
  mark_graduated, upsert_kline, created_event_row, graduated_event_row, set_graduated, set_totals,
  is_token, kline_row, merge_kline, trade_event_row, trade_row,
}
use meme_launchpad_backend.Ledger.Repository.{kline_key, apply_projection}
use meme_launchpad_backend.Ledger.Refines.{apply_projection-Does}
use meme_launchpad_backend.Ledger.Spec.{
  kline_spec, created_spec, trade_spec, graduated_spec, projection_spec, projection_spec-cases,
}

rows_inserted-insert_new :
    {K V : Type 0} ⦃e : Comparable K⦄ (k : K) (v : V) (t : Table K V)
    → rows_inserted k (insert_new k v t) ≡ 0
unfolding rows_inserted insert_new upsert lookup
rows_inserted-insert_new ⦃e⦄ k v [] = ground (arith, e.same_iff k k)
rows_inserted-insert_new ⦃e⦄ k v ((j, w) ∷ t) = ground (arith, rows_inserted-insert_new k v t)

module _ (enc : Encoding) where
  created_spec-twice :
      (e : TokenCreatedProjection) (d : Ledger)
      → created_spec enc e (created_spec enc e d) ≡ created_spec enc e d
  unfolding created_spec insert_created_event upsert_token recreated created_row
  created_spec-twice e d = λ i. record d {
    token_created_events =
        insert_new-insert_new (e.transaction_hash, e.log_index) (created_event_row enc e)
          (created_event_row enc e) d.token_created_events i;
    tokens =
        upsert-upsert (enc.lower e.token_address) (created_row enc e)
          (recreated (created_row enc e)) refl (λ v. refl) d.tokens i;
  }

  graduated_spec-twice :
      (e : TokenGraduatedProjection) (d : Ledger)
      → graduated_spec enc e (graduated_spec enc e d) ≡ graduated_spec enc e d
  unfolding graduated_spec insert_graduated_event mark_graduated set_graduated
  graduated_spec-twice e d = λ i. record d {
    token_graduated_events =
        insert_new-insert_new (e.transaction_hash, e.log_index) (graduated_event_row enc e)
          (graduated_event_row enc e) d.token_graduated_events i;
    tokens =
        update_where-update_where (is_token enc e.token_address) (set_graduated e) (λ v. refl)
          d.tokens i;
  }

  -- The candles of one trade, on the table of candles alone.
  kline_rows :
      List String → TokenTradeProjection → Table KlineKey KlineRow → Table KlineKey KlineRow
  kline_rows [] e t = t
  kline_rows (i ∷ is) e t =
      let price = price_string e.bnb_amount e.token_amount in
      let volume = int_string e.token_amount in
      kline_rows is e
        (upsert (kline_key enc e i) (kline_row price volume) (merge_kline price volume) t)

  kline_spec-eq :
      (is : List String) (e : TokenTradeProjection) (d : Ledger)
      → kline_spec enc is e d ≡ record d { klines = kline_rows is e d.klines }
  unfolding kline_spec kline_rows upsert_kline
  kline_spec-eq [] e d = refl
  kline_spec-eq (i ∷ is) e d = kline_spec-eq is e _

  abbrev event_key : TokenTradeProjection → String × ℕ
  event_key e = (e.transaction_hash, e.log_index)

  abbrev trade_key : TokenTradeProjection → String × ℕ × ℕ
  trade_key e = (e.transaction_hash, e.log_index, e.trade_type)

  -- The tables after a trade, with the candles as a parameter.
  sale_spec : TokenTradeProjection → Table KlineKey KlineRow → Ledger → Ledger
  sale_spec e klines d = record d {
    token_sold_events = insert_new (event_key e) (trade_event_row enc e) d.token_sold_events;
    trades = insert_new (trade_key e) (trade_row enc e) d.trades;
    tokens = update_where (is_token enc e.token_address) (set_totals e) d.tokens;
    klines = klines;
  }

  purchase_spec : TokenTradeProjection → Table KlineKey KlineRow → Ledger → Ledger
  purchase_spec e klines d = record d {
    token_bought_events = insert_new (event_key e) (trade_event_row enc e) d.token_bought_events;
    trades = insert_new (trade_key e) (trade_row enc e) d.trades;
    tokens = update_where (is_token enc e.token_address) (set_totals e) d.tokens;
    klines = klines;
  }

  new_klines : TokenTradeProjection → Ledger → Table KlineKey KlineRow
  new_klines e d =
      if rows_inserted (trade_key e) d.trades == 0
      then d.klines
      else kline_rows intervals e d.klines

  trade_spec-eq_sale :
      (e : TokenTradeProjection) (d : Ledger)
      → (e.trade_type == trade_type_sell) ≡ true
      → trade_spec enc e d ≡ sale_spec e (new_klines e d) d
  unfolding trade_spec sale_spec new_klines insert_trade_event insert_trade update_totals
  trade_spec-eq_sale e d sale =
      rw sale (elim (Bool-cases (rows_inserted (trade_key e) d.trades == 0)) [
        | inl old ↦ rw old refl
        | inr new ↦ rw (new, kline_spec-eq) refl
      ])

  trade_spec-eq_purchase :
      (e : TokenTradeProjection) (d : Ledger)
      → (e.trade_type == trade_type_sell) ≡ false
      → trade_spec enc e d ≡ purchase_spec e (new_klines e d) d
  unfolding trade_spec purchase_spec new_klines insert_trade_event insert_trade update_totals
  trade_spec-eq_purchase e d purchase =
      rw purchase (elim (Bool-cases (rows_inserted (trade_key e) d.trades == 0)) [
        | inl old ↦ rw old refl
        | inr new ↦ rw (new, kline_spec-eq) refl
      ])

  sale_spec-twice :
      (e : TokenTradeProjection) (t : Table KlineKey KlineRow) (d : Ledger)
      → sale_spec e (new_klines e (sale_spec e t d)) (sale_spec e t d) ≡ sale_spec e t d
  unfolding sale_spec new_klines set_totals
  sale_spec-twice e t d = rw rows_inserted-insert_new (λ i. record d {
    token_sold_events =
        insert_new-insert_new (event_key e) (trade_event_row enc e) (trade_event_row enc e)
          d.token_sold_events i;
    trades = insert_new-insert_new (trade_key e) (trade_row enc e) (trade_row enc e) d.trades i;
    tokens =
        update_where-update_where (is_token enc e.token_address) (set_totals e) (λ v. refl) d.tokens
          i;
    klines = t;
  })

  purchase_spec-twice :
      (e : TokenTradeProjection) (t : Table KlineKey KlineRow) (d : Ledger)
      → purchase_spec e (new_klines e (purchase_spec e t d)) (purchase_spec e t d)
        ≡ purchase_spec e t d
  unfolding purchase_spec new_klines set_totals
  purchase_spec-twice e t d = rw rows_inserted-insert_new (λ i. record d {
    token_bought_events =
        insert_new-insert_new (event_key e) (trade_event_row enc e) (trade_event_row enc e)
          d.token_bought_events i;
    trades = insert_new-insert_new (trade_key e) (trade_row enc e) (trade_row enc e) d.trades i;
    tokens =
        update_where-update_where (is_token enc e.token_address) (set_totals e) (λ v. refl) d.tokens
          i;
    klines = t;
  })

  trade_spec-twice :
      (e : TokenTradeProjection) (d : Ledger)
      → trade_spec enc e (trade_spec enc e d) ≡ trade_spec enc e d
  trade_spec-twice e d = elim (Bool-cases (e.trade_type == trade_type_sell)) [
    | inl sale ↦
        rw (trade_spec-eq_sale e d sale)
          (trade_spec-eq_sale e _ sale ∙ sale_spec-twice e (new_klines e d) d)
    | inr purchase ↦
        rw (trade_spec-eq_purchase e d purchase)
          (trade_spec-eq_purchase e _ purchase ∙ purchase_spec-twice e (new_klines e d) d)
  ]

  projection_spec-twice :
      (p : ChainProjection) (d : Ledger)
      → projection_spec enc p (projection_spec enc p d) ≡ projection_spec enc p d
  projection_spec-twice p d =
      projection_spec-cases enc (λ f. f (f d) ≡ f d) p (λ e. created_spec-twice e d)
        (λ e. trade_spec-twice e d) (λ e. graduated_spec-twice e d) refl

  -- When `applyProjection` returns no error, and a transaction that starts from the tables that it
  -- leaves applies the same projection and returns no error either, the second leaves every table as
  -- it found it: no event, trade or token is doubled, and no candle counts a trade twice.
  pub apply_projection-twice :
      (p : ChainProjection) (tx tx' second second' : Tx Ledger)
      → apply_projection enc p tx ≡ (ok tt, tx')
      → second.tables ≡ tx'.tables
      → apply_projection enc p second ≡ (ok tt, second')
      → second'.tables ≡ tx'.tables
  apply_projection-twice p tx tx' second second' once same again =
      let (_, first) = (apply_projection-Does enc p).on_ok tx tx' tt once in
      let (_, repeated) = (apply_projection-Does enc p).on_ok second second' tt again in
      repeated
      ∙ ap (projection_spec enc p) (same ∙ first)
      ∙ projection_spec-twice p tx.tables
      ∙ sym first
