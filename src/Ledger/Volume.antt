-- ===== src/Ledger/Volume.antt =====
-- The candles account for the trades: the volume of a candle is the sum of the token amounts of the
-- trades that fall into it.
use meme_launchpad_backend.Common.{
  ℕ, ◌+◌, ◌≡◌, refl, Bool, true, false, not, ◌&&◌, ◌||◌, String, Option, none, some, List, [], ◌∷◌,
  Comparable, ◌==◌, eq_iff, nat_eq, string_eq, pair_eq, triple_eq, if◌then◌else◌, arith, Bool-cases,
  inl, inr,
}
use meme_launchpad_backend.Postgres.Table.{Table, lookup, upsert, insert_new, rows_inserted}
use meme_launchpad_backend.Candle.{align_time, intervals}
use meme_launchpad_backend.Ledger.Rows.{
  Encoding, TokenTradeProjection, TradeRow, KlineRow, KlineKey, Ledger,
}
use meme_launchpad_backend.Ledger.Statements.{
  trade_type_sell, int_string, price_string, merge_kline, kline_row, upsert_kline, insert_trade,
  trade_row, insert_trade_event, update_totals,
}
use meme_launchpad_backend.Ledger.Repository.{kline_key}
use meme_launchpad_backend.Ledger.Spec.{kline_spec, trade_spec}

abbrev pub occurs : String → List String → Bool
occurs j [] = false
occurs j (i ∷ is) = i == j || occurs j is

abbrev pub distinct : List String → Bool
distinct [] = true
distinct (i ∷ is) = not (occurs i is) && distinct is

-- Whether a trade belongs to a candle, and what it adds to it.
abbrev pub share : KlineKey → TradeRow → ℕ
share (a, j, o) row =
    if row.token_address == a && align_time row.block_timestamp j == o then row.token_amount else 0

unfoldable pub trade_volume : KlineKey → Table (String × ℕ × ℕ) TradeRow → ℕ
trade_volume k [] = 0
trade_volume k ((_, row) ∷ t) = share k row + trade_volume k t

abbrev pub volume_of : Option KlineRow → ℕ
volume_of none = 0
volume_of (some row) = row.volume

unfoldable pub kline_volume : KlineKey → Table KlineKey KlineRow → ℕ
kline_volume k t = volume_of (lookup k t)

-- Every candle of the eight intervals, stored or not, holds the volume of its trades.
pub record IsBooked (d : Ledger) : Type 0 where
  pub booked :
      (k : KlineKey)
      → occurs k.1 intervals ≡ true
      → kline_volume k d.klines ≡ trade_volume k d.trades

trade_volume-insert_new :
    (k : KlineKey) (key : String × ℕ × ℕ) (row : TradeRow) (t : Table (String × ℕ × ℕ) TradeRow)
    → trade_volume k (insert_new key row t)
      ≡ (if rows_inserted key t == 0 then trade_volume k t else trade_volume k t + share k row)
unfolding trade_volume insert_new upsert rows_inserted lookup
trade_volume-insert_new k key row [] = ground arith
trade_volume-insert_new k key row ((j, r) ∷ t) = ground (arith, trade_volume-insert_new k key row t)

pub lookup-upsert_volume :
    {K : Type 0} ⦃e : Comparable K⦄ (k key : K) (fresh : KlineRow) (price : ℕ)
    (t : Table K KlineRow)
    → volume_of (lookup k (upsert key fresh (merge_kline price fresh.volume) t))
      ≡ volume_of (lookup k t) + (if key == k then fresh.volume else 0)
unfolding lookup upsert merge_kline
lookup-upsert_volume k key fresh price [] = ground arith
lookup-upsert_volume ⦃e⦄ k key fresh price ((j, row) ∷ t) = ground (
  arith,
  lookup-upsert_volume k key fresh price t,
  e.same_iff key k,
  e.same_iff j key,
  e.same_iff j k,
)

kline_volume-upsert :
    (k key : KlineKey) (fresh : KlineRow) (price : ℕ) (t : Table KlineKey KlineRow)
    → kline_volume k (upsert key fresh (merge_kline price fresh.volume) t)
      ≡ kline_volume k t + (if key == k then fresh.volume else 0)
unfolding kline_volume
kline_volume-upsert k key fresh price t = lookup-upsert_volume k key fresh price t

module _ (enc : Encoding) where
  -- What the candles of a list of intervals add to the candle under a key.
  added : KlineKey → List String → TokenTradeProjection → ℕ
  added k [] e = 0
  added k (i ∷ is) e =
      (if kline_key enc e i == k then int_string e.token_amount else 0) + added k is e

  kline_volume-kline_spec :
      (k : KlineKey) (is : List String) (e : TokenTradeProjection) (d : Ledger)
      → kline_volume k (kline_spec enc is e d).klines ≡ kline_volume k d.klines + added k is e
  unfolding kline_spec upsert_kline added kline_row
  kline_volume-kline_spec k [] e d = omega arith
  kline_volume-kline_spec k (i ∷ is) e d = omega (
    arith,
    kline_volume-kline_spec k is e _,
    kline_volume-upsert k (kline_key enc e i) _ (price_string e.bnb_amount e.token_amount) d.klines,
  )

  trades-kline_spec :
      (is : List String) (e : TokenTradeProjection) (d : Ledger)
      → (kline_spec enc is e d).trades ≡ d.trades
  unfolding kline_spec upsert_kline
  trades-kline_spec [] e d = refl
  trades-kline_spec (i ∷ is) e d = trades-kline_spec is e _

  added-eq-share :
      (k : KlineKey) (is : List String) (e : TokenTradeProjection)
      → distinct is ≡ true
      → added k is e ≡ (if occurs k.1 is then share k (trade_row enc e) else 0)
  unfolding added trade_row
  added-eq-share k [] e h = refl
  added-eq-share (a, j, o) (i ∷ is) e h = ground (arith, added-eq-share (a, j, o) is e, eq_iff i j)

  event_keeps :
      (e : TokenTradeProjection) (d : Ledger)
      → ((insert_trade_event enc e d).1.klines ≡ d.klines)
        × ((insert_trade_event enc e d).1.trades ≡ d.trades)
  unfolding insert_trade_event
  event_keeps e d = elim (Bool-cases (e.trade_type == trade_type_sell)) [
    | inl sale ↦ rw sale (refl, refl)
    | inr purchase ↦ rw purchase (refl, refl)
  ]

  abbrev trade_key : TokenTradeProjection → String × ℕ × ℕ
  trade_key e = (e.transaction_hash, e.log_index, e.trade_type)

  -- A trade event that is applied, new or not, keeps every candle in step with the trades.
  pub trade_spec-IsBooked :
      (e : TokenTradeProjection) (d : Ledger) → IsBooked d → IsBooked (trade_spec enc e d)
  unfolding trade_spec insert_trade update_totals
  trade_spec-IsBooked e d h = record {
    booked = λ k listed.
        let logged : Ledger = (insert_trade_event enc e d).1 in
        let totals : Ledger = (update_totals enc e (insert_trade enc e logged).1).1 in
        elim (Bool-cases (rows_inserted (trade_key e) logged.trades == 0)) [
          | inl old ↦ rw old (
              ground (
                arith,
                h.booked k listed,
                event_keeps e d,
                trade_volume-insert_new k (trade_key e) (trade_row enc e) logged.trades,
              ))
          | inr new ↦ rw new (
              ground (
                arith,
                h.booked k listed,
                event_keeps e d,
                trade_volume-insert_new k (trade_key e) (trade_row enc e) logged.trades,
                kline_volume-kline_spec k intervals e totals,
                trades-kline_spec intervals e totals,
                added-eq-share k intervals e refl,
              ))
        ];
  }
