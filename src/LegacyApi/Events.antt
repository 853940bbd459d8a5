-- ===== src/LegacyApi/Events.antt =====
-- The event service of the legacy API: apps/api/internal/service/chain/events.go, over the tables that
-- the legacy indexer writes. A row stands behind its transaction and log index. What SUM gives as a text
-- is a number, and `none` the empty text of a statement that failed.
pub mod Pages
pub mod Distinct
pub mod Indexed
use meme_launchpad_backend.Common.{
  ℕ, ◌+◌, ◌*◌, ◌^◌, String, Bool, true, false, not, ◌&&◌, Option, none, some, List, [], ◌∷◌, ◌++◌,
  map, length, leb, ◌==◌, string_eq, if◌then◌else◌,
}
use meme_launchpad_backend.Fallible.{Result, ok, err}
use meme_launchpad_backend.Go.Strconv.{ℤ}
use meme_launchpad_backend.Postgres.Transaction.{World}
use meme_launchpad_backend.Postgres.Query.{query, select, order_desc, limited, paged, first, total}
use meme_launchpad_backend.Ledger.Rows.{TokenCreatedRow, TradeEventRow, TokenGraduatedRow}
use meme_launchpad_backend.LegacyIndexer.Rows.{Tables}

abbrev pub Row : Type 0 → Type 0
Row V = (String × ℕ) × V

-- what the rows of a query are given back for
abbrev pub Found : Type 0 → Type 0
Found V = Result V × World Tables

-- an entry of `GetTokenTrades`
pub record Trade : Type 0 where
  pub trade_type : ℕ
  pub token_address : String
  pub user_address : String
  pub bnb_amount : ℕ
  pub token_amount : ℕ
  pub trading_fee : ℕ
  pub transaction_hash : String
  pub block_number : ℕ
  pub block_timestamp : ℕ

abbrev pub trade : ℕ → Row TradeEventRow → Trade
trade trade_type ((transaction_hash, _), r) = record {
  trade_type = trade_type;
  token_address = r.token_address;
  user_address = r.user_address;
  bnb_amount = r.bnb_amount;
  token_amount = r.token_amount;
  trading_fee = r.trading_fee;
  transaction_hash = transaction_hash;
  block_number = r.block_number;
  block_timestamp = r.block_timestamp;
}

pub record DayStats : Type 0 where
  pub buy_count : ℕ
  pub sell_count : ℕ
  pub total_volume_bnb : Option ℕ

pub record UserStats : Type 0 where
  pub total_buy_count : ℕ
  pub total_sell_count : ℕ
  pub total_buy_bnb : Option ℕ
  pub total_sell_bnb : Option ℕ
  pub traded_token_count : ℕ

-- COUNT(*) and SUM(bnb_amount) of some rows
abbrev pub counted : List (Row TradeEventRow) → ℕ × ℕ
counted rows = (length rows, total (λ r. r.1.bnb_amount) rows)

-- the numbers that Scan leaves where its error is dropped
abbrev pub scanned : Result (ℕ × ℕ) → ℕ × Option ℕ
scanned (ok (n, amount)) = (n, some amount)
scanned (err _) = (0, none)

unfoldable pub has : String → List String → Bool
has s [] = false
has s (t ∷ ts) = let rest = has s ts in if s == t then true else rest

-- COUNT(DISTINCT ...)
unfoldable pub count_distinct : List String → ℕ
unfolding has
count_distinct [] = 0
count_distinct (s ∷ ss) = let rest = count_distinct ss in if has s ss then rest else rest + 1

module _ (lower : String → String) where
  abbrev pub bought_of : String → Tables → List (Row TradeEventRow)
  bought_of token d = select (λ r. lower r.1.token_address == lower token) d.token_bought_events

  abbrev pub sold_of : String → Tables → List (Row TradeEventRow)
  sold_of token d = select (λ r. lower r.1.token_address == lower token) d.token_sold_events

  unfoldable pub get_token_created_by_address : String → World Tables → Found (Row TokenCreatedRow)
  unfolding query select
  get_token_created_by_address token w =
      query
        (λ d. first (select (λ r. lower r.1.token_address == lower token) d.token_created_events)) w

  unfoldable pub get_token_created_by_request_id :
      String → World Tables → Found (Row TokenCreatedRow)
  unfolding query select
  get_token_created_by_request_id request_id w =
      query (λ d. first (select (λ r. r.1.request_id == request_id) d.token_created_events)) w

  unfoldable pub get_recent_token_created : ℤ → World Tables → Found (List (Row TokenCreatedRow))
  unfolding query order_desc
  get_recent_token_created limit w =
      query (λ d. limited limit (order_desc (λ r. r.1.block_timestamp) d.token_created_events)) w

  unfoldable pub get_token_buy_events :
      String → ℤ → ℤ → World Tables → Found (List (Row TradeEventRow) × ℕ)
  unfolding paged select order_desc
  get_token_buy_events token limit offset w =
      paged (λ d. length (bought_of token d))
        (λ d. order_desc (λ r. r.1.block_timestamp) (bought_of token d)) limit offset w

  unfoldable pub get_token_sell_events :
      String → ℤ → ℤ → World Tables → Found (List (Row TradeEventRow) × ℕ)
  unfolding paged select order_desc
  get_token_sell_events token limit offset w =
      paged (λ d. length (sold_of token d))
        (λ d. order_desc (λ r. r.1.block_timestamp) (sold_of token d)) limit offset w

  -- UNION ALL of the purchases and the sales
  abbrev pub trades_of : String → Tables → List Trade
  trades_of token d = map (trade 10) (bought_of token d) ++ map (trade 20) (sold_of token d)

  unfoldable pub get_token_trades : String → ℤ → ℤ → World Tables → Found (List Trade × ℕ)
  unfolding paged select order_desc
  get_token_trades token limit offset w =
      paged (λ d. length (bought_of token d) + length (sold_of token d))
        (λ d. order_desc (λ t. t.block_timestamp) (trades_of token d)) limit offset w

  -- the rows of the last 24 hours before a time in nanoseconds
  abbrev pub is_recent : ℕ → Row TradeEventRow → Bool
  is_recent now r = leb now ((r.1.block_timestamp + 86400) * 10 ^ 9)

  -- The amounts of the sales are read and left out.
  unfoldable pub get_token_24h_stats : ℕ → String → World Tables → Found DayStats
  unfolding query select total
  get_token_24h_stats now token w =
      let (bought, w') = query (λ d. ok (counted (select (is_recent now) (bought_of token d)))) w in
      let (sold, w'') = query (λ d. ok (counted (select (is_recent now) (sold_of token d)))) w' in
      (
        ok (record {
          buy_count = (scanned bought).0;
          sell_count = (scanned sold).0;
          total_volume_bnb = (scanned bought).1;
        }),
        w'',
      )

  -- Every error counts as a token that has not graduated.
  unfoldable pub get_token_is_graduated :
      String → World Tables → Found (Option (Row TokenGraduatedRow))
  unfolding query select
  get_token_is_graduated token w =
      let (r, w') =
        query
          (λ d.
            first (select (λ r. lower r.1.token_address == lower token) d.token_graduated_events))
          w in
      (elim r [ err _ ↦ ok none | ok e ↦ ok (some e) ], w')

  abbrev pub bought_by : String → Tables → List (Row TradeEventRow)
  bought_by user d = select (λ r. lower r.1.user_address == lower user) d.token_bought_events

  abbrev pub sold_by : String → Tables → List (Row TradeEventRow)
  sold_by user d = select (λ r. lower r.1.user_address == lower user) d.token_sold_events

  abbrev pub tokens_of : List (Row TradeEventRow) → List String
  tokens_of rows = map (λ r. r.1.token_address) rows

  unfoldable pub get_user_trade_stats : String → World Tables → Found UserStats
  unfolding query select total count_distinct
  get_user_trade_stats user w =
      let (bought, w1) = query (λ d. ok (counted (bought_by user d))) w in
      let (sold, w2) = query (λ d. ok (counted (sold_by user d))) w1 in
      let (tokens, w3) =
        query
          (λ d. ok (count_distinct (tokens_of (bought_by user d) ++ tokens_of (sold_by user d))))
          w2 in
      (
        ok (record {
          total_buy_count = (scanned bought).0;
          total_sell_count = (scanned sold).0;
          total_buy_bnb = (scanned bought).1;
          total_sell_bnb = (scanned sold).1;
          traded_token_count = elim tokens [ err _ ↦ 0 | ok n ↦ n ];
        }),
        w3,
      )
