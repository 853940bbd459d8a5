-- ===== src/LegacyApi/Events/Indexed.antt =====
-- What the statistics of a user show of a purchase that the legacy indexer has written.
use meme_launchpad_backend.Common.{
  ℕ, ◌+◌, ◌≡◌, refl, ◌∙◌, ap, String, Bool, true, false, Bool-cases, inl, inr, none, some, List, [],
  ◌∷◌, ◌++◌, length, length-append, ◌==◌, nat_eq, string_eq, pair_eq, arith, if◌then◌else◌,
}
use meme_launchpad_backend.Fallible.{ok}
use meme_launchpad_backend.Postgres.Table.{lookup, insert_new}
use meme_launchpad_backend.Postgres.Query.{query, select, total}
use meme_launchpad_backend.Postgres.Query.Laws.{select-insert_new, total-append}
use meme_launchpad_backend.Candle.{intervals}
use meme_launchpad_backend.Ledger.Rows.{TradeEventRow}
use meme_launchpad_backend.LegacyIndexer.Rows.{TokenBoughtEvent, Tables}
use meme_launchpad_backend.LegacyIndexer.Statements.{
  insert_bought_event, insert_trade, update_tokens, upsert_kline,
}
use meme_launchpad_backend.LegacyIndexer.Database.{insert_token_bought_event}
use meme_launchpad_backend.LegacyIndexer.Database.Recount.{
  healthy, klines_spec, bought_rows, bought_spec, insert_token_bought_event-calm,
}
use meme_launchpad_backend.LegacyApi.Events.Distinct.{count_distinct-between}
use meme_launchpad_backend.LegacyApi.Events.{
  Row, UserStats, bought_by, sold_by, tokens_of, has, count_distinct, get_user_trade_stats,
}

-- the row of a purchase
abbrev pub event_row : TokenBoughtEvent → TradeEventRow
event_row e = record {
  token_address = e.token_address;
  user_address = e.buyer_address;
  bnb_amount = e.bnb_amount;
  token_amount = e.token_amount;
  trading_fee = e.trading_fee;
  virtual_bnb_reserve = e.virtual_bnb_reserve;
  virtual_token_reserve = e.virtual_token_reserve;
  available_tokens = e.available_tokens;
  collected_bnb = e.collected_bnb;
  block_number = e.block_number;
  block_timestamp = e.block_timestamp;
}

events-klines_spec :
    (is : List String) (token : String) (time price volume : ℕ) (d : Tables)
    → let d' = klines_spec is token time price volume d in
      (d'.token_bought_events ≡ d.token_bought_events)
      × (d'.token_sold_events ≡ d.token_sold_events)
unfolding klines_spec upsert_kline
events-klines_spec [] token time price volume d = (refl, refl)
events-klines_spec (i ∷ is) token time price volume d =
    events-klines_spec is token time price volume _

module _ (lower : String → String) (quotient : ℕ → ℕ → ℕ) where
  events-bought_spec :
      (e : TokenBoughtEvent) (d : Tables)
      → let d' = bought_spec lower quotient e d in
        (d'.token_bought_events
          ≡ insert_new (e.transaction_hash, e.log_index) (event_row e) d.token_bought_events)
        × (d'.token_sold_events ≡ d.token_sold_events)
  unfolding bought_spec bought_rows update_tokens insert_trade insert_bought_event
  events-bought_spec e d = elim (Bool-cases (e.token_amount == 0)) [
    | inl nothing ↦ rw nothing (refl, refl)
    | inr amount ↦ rw amount (events-klines_spec intervals e.token_address e.block_timestamp _ _ _)
  ]

  -- one more row, if it is the user's
  counted-more :
      (rows : List (Row TradeEventRow)) (r : Row TradeEventRow) (b : Bool)
      → let all = rows ++ (if b then r ∷ [] else []) in
        (length all ≡ length rows + (if b then 1 else 0))
        × (total (λ r. r.1.bnb_amount) all
            ≡ total (λ r. r.1.bnb_amount) rows + (if b then r.1.bnb_amount else 0))
  unfolding total
  counted-more rows r true =
      (length-append rows (r ∷ []), omega (arith, total-append (λ r. r.1.bnb_amount) rows (r ∷ [])))
  counted-more rows r false = (
    omega (arith, length-append rows []),
    omega (arith, total-append (λ r. r.1.bnb_amount) rows []),
  )

  tokens_of-more :
      (rows : List (Row TradeEventRow)) (r : Row TradeEventRow) (ys : List String)
      → tokens_of lower (rows ++ (r ∷ [])) ++ ys ≡ tokens_of lower rows ++ (r.1.token_address ∷ ys)
  tokens_of-more [] r ys = refl
  tokens_of-more (x ∷ xs) r ys = ap (λ l. x.1.token_address ∷ l) (tokens_of-more xs r ys)

  -- one more token, if the row is the user's and its token is new among his
  distinct-more :
      (rows : List (Row TradeEventRow)) (r : Row TradeEventRow) (ys : List String) (b : Bool)
      → count_distinct (tokens_of lower (rows ++ (if b then r ∷ [] else [])) ++ ys)
        ≡ count_distinct (tokens_of lower rows ++ ys)
          + (if b then (if has r.1.token_address (tokens_of lower rows ++ ys) then 0 else 1) else 0)
  distinct-more rows r ys true =
      ap count_distinct (tokens_of-more rows r ys)
      ∙ count_distinct-between r.1.token_address (tokens_of lower rows) ys
  distinct-more rows r ys false =
      ap (λ l. count_distinct (tokens_of lower l ++ ys)) (append-nil rows) ∙ omega arith
    where
      append-nil : (l : List (Row TradeEventRow)) → l ++ [] ≡ l
      append-nil [] = refl
      append-nil (x ∷ xs) = ap (λ l. x ∷ l) (append-nil xs)

  -- the tokens that a user has traded
  abbrev pub traded : String → Tables → List String
  traded user d = tokens_of lower (bought_by lower user d) ++ tokens_of lower (sold_by lower user d)

  -- the purchases and sales of a user after one more purchase
  bought_by-after :
      (e : TokenBoughtEvent) (d : Tables) (user : String)
      → lookup (e.transaction_hash, e.log_index) d.token_bought_events ≡ none
      → let d' = bought_spec lower quotient e d in
        (bought_by lower user d'
          ≡ bought_by lower user d
            ++ (if lower e.buyer_address == lower user
                then ((e.transaction_hash, e.log_index), event_row e) ∷ []
                else []))
        × (sold_by lower user d' ≡ sold_by lower user d)
  bought_by-after e d user fresh =
      let (bought, sold) = events-bought_spec e d in
      (
        ap (select (λ r. lower r.1.user_address == lower user)) bought
            ∙ select-insert_new (λ r. lower r.1.user_address == lower user)
                (e.transaction_hash, e.log_index) (event_row e) d.token_bought_events fresh,
        ap (select (λ r. lower r.1.user_address == lower user)) sold,
      )

  -- the statistics that tables give
  abbrev stats_of : String → Tables → UserStats
  stats_of user d = record {
    total_buy_count = length (bought_by lower user d);
    total_sell_count = length (sold_by lower user d);
    total_buy_bnb = some (total (λ r. r.1.bnb_amount) (bought_by lower user d));
    total_sell_bnb = some (total (λ r. r.1.bnb_amount) (sold_by lower user d));
    traded_token_count =
        count_distinct
          (tokens_of lower (bought_by lower user d) ++ tokens_of lower (sold_by lower user d));
  }

  get_user_trade_stats-calm :
      (user : String) (d : Tables)
      → (get_user_trade_stats lower user (healthy d)).0 ≡ ok (stats_of user d)
  unfolding get_user_trade_stats query
  get_user_trade_stats-calm user d = refl

  -- With no failing statement, a purchase that the legacy indexer writes and that was not stored before
  -- counts once in the statistics of its buyer, with its amount, and its token once if the buyer had not
  -- traded it; the numbers and amounts of sales stay, and so do all statistics of any other user.
  pub user_stats-bought :
      (e : TokenBoughtEvent) (d : Tables) (user : String)
      → lookup (e.transaction_hash, e.log_index) d.token_bought_events ≡ none
      → let own = lower e.buyer_address == lower user in
        let before = get_user_trade_stats lower user (healthy d) in
        let after =
          get_user_trade_stats lower user
            (insert_token_bought_event lower quotient e (healthy d)).1 in
        (s : UserStats) × (s' : UserStats) × (before.0 ≡ ok s)
        × (after.0 ≡ ok s')
        × (s'.total_buy_count ≡ s.total_buy_count + (if own then 1 else 0))
        × ((n : ℕ) × (s.total_buy_bnb ≡ some n)
            × (s'.total_buy_bnb ≡ some (n + (if own then e.bnb_amount else 0))))
        × (s'.total_sell_count ≡ s.total_sell_count)
        × (s'.total_sell_bnb ≡ s.total_sell_bnb)
        × (s'.traded_token_count
            ≡ s.traded_token_count
              + (if own then (if has e.token_address (traded user d) then 0 else 1) else 0))
  user_stats-bought e d user fresh =
      let d' = bought_spec lower quotient e d in
      let (bought, sold) = bought_by-after e d user fresh in
      let key : String × ℕ = (e.transaction_hash, e.log_index) in
      let after =
        bought_by lower user d
        ++ (if lower e.buyer_address == lower user then (key, event_row e) ∷ [] else []) in
      let (count, amount) =
        counted-more (bought_by lower user d) (key, event_row e)
          (lower e.buyer_address == lower user) in
      (
        stats_of user d,
        stats_of user d',
        get_user_trade_stats-calm user d,
        ap (λ o. (get_user_trade_stats lower user o.1).0)
              (insert_token_bought_event-calm lower quotient e d)
            ∙ get_user_trade_stats-calm user d',
        ap (λ rows. length rows) bought ∙ count,
        (
          total (λ r. r.1.bnb_amount) (bought_by lower user d),
          refl,
          ap (λ rows. some (total (λ r. r.1.bnb_amount) rows)) bought ∙ ap some amount,
        ),
        ap (λ rows. length rows) sold,
        ap (λ rows. some (total (λ r. r.1.bnb_amount) rows)) sold,
        ap
              (λ rows.
                count_distinct (tokens_of lower rows ++ tokens_of lower (sold_by lower user d')))
              bought
            ∙ ap (λ rows. count_distinct (tokens_of lower after ++ tokens_of lower rows)) sold
            ∙ distinct-more (bought_by lower user d) (key, event_row e)
                (tokens_of lower (sold_by lower user d)) (lower e.buyer_address == lower user),
      )
