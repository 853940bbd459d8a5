-- ===== src/Ledger/Statements.antt =====
-- The SQL statements that chain_event.go sends for projections, each as what it returns and leaves in the tables.
use meme_launchpad_backend.Common.{
  ℕ, Bool, ◌+◌, ◌*◌, ◌/◌, ◌^◌, min, max, String, Option, none, some, ◌==◌, nat_eq, string_eq,
  pair_eq, triple_eq, if◌then◌else◌,
}
use meme_launchpad_backend.Postgres.Table.{insert_new, rows_inserted, upsert, update_where}
use meme_launchpad_backend.Ledger.Rows.{
  Encoding, TokenCreatedProjection, TokenTradeProjection, TokenGraduatedProjection, TokenCreatedRow,
  TokenRow, TradeEventRow, TradeRow, TokenGraduatedRow, KlineRow, KlineKey, Ledger,
}

abbrev pub trade_type_buy : ℕ
trade_type_buy = 10

abbrev pub trade_type_sell : ℕ
trade_type_sell = 20

abbrev pub token_status_trading : ℕ
token_status_trading = 1

abbrev pub token_status_graduated : ℕ
token_status_graduated = 3

-- `intString`, as the number that PostgreSQL reads from the text
unfoldable pub int_string : Option ℕ → ℕ
int_string none = 0
int_string (some n) = n

-- `priceString`, in units of 10^-18: `FloatString(18)` rounds to nearest, halves up.
unfoldable pub price_string : Option ℕ → Option ℕ → ℕ
price_string none _ = 0
price_string (some _) none = 0
price_string (some bnb) (some token) =
    if token == 0 then 0 else (2 * bnb * 10 ^ 18 + token) / (2 * token)

-- the SET clause of the upsert into tokens
unfoldable pub recreated : TokenRow → TokenRow → TokenRow
recreated fresh old = record old {
  name = fresh.name;
  symbol = fresh.symbol;
  creator_address = fresh.creator_address;
  total_supply = fresh.total_supply;
  updated_at = fresh.updated_at;
}

unfoldable pub set_totals : TokenTradeProjection → TokenRow → TokenRow
unfolding int_string
set_totals e row = record row {
  bnb_current = int_string e.collected_bnb;
  available_tokens = int_string e.available_tokens;
  updated_at = e.block_timestamp;
}

unfoldable pub set_graduated : TokenGraduatedProjection → TokenRow → TokenRow
set_graduated e row = record row { status = token_status_graduated; updated_at = e.block_timestamp }

module _ (enc : Encoding) where
  open enc use {lower}

  unfoldable pub created_event_row : TokenCreatedProjection → TokenCreatedRow
  unfolding int_string
  created_event_row e = record {
    token_address = lower e.token_address;
    creator_address = lower e.creator_address;
    name = e.name;
    symbol = e.symbol;
    total_supply = int_string e.total_supply;
    request_id = e.request_id;
    block_number = e.block_number;
    block_timestamp = e.block_timestamp;
  }

  unfoldable pub insert_created_event : TokenCreatedProjection → Ledger → Unit {0} × Ledger
  insert_created_event e d = (
    tt,
    record d {
      token_created_events =
          insert_new (e.transaction_hash, e.log_index) (created_event_row e) d.token_created_events;
    },
  )

  -- the row that `applyTokenCreated` inserts, with its defaults for zero fields
  unfoldable pub created_row : TokenCreatedProjection → TokenRow
  unfolding int_string
  created_row e =
      let bnb_target = int_string e.initial_bnb_target in
      record {
        name = e.name;
        symbol = e.symbol;
        creator_address = lower e.creator_address;
        launch_mode = if e.initial_launch_mode == 0 then 1 else e.initial_launch_mode;
        bnb_current = int_string e.initial_bnb_current;
        bnb_target = if bnb_target == 0 then 24000000000000000000 else bnb_target;
        total_supply = int_string e.total_supply;
        available_tokens = int_string e.initial_available;
        status =
            if e.initial_token_status == 0 then token_status_trading else e.initial_token_status;
        created_at = e.block_timestamp;
        updated_at = e.block_timestamp;
      }

  unfoldable pub upsert_token : TokenCreatedProjection → Ledger → Unit {0} × Ledger
  upsert_token e d =
      let fresh = created_row e in
      (tt, record d { tokens = upsert (lower e.token_address) fresh (recreated fresh) d.tokens })

  unfoldable pub trade_event_row : TokenTradeProjection → TradeEventRow
  unfolding int_string
  trade_event_row e = record {
    token_address = lower e.token_address;
    user_address = lower e.user_address;
    bnb_amount = int_string e.bnb_amount;
    token_amount = int_string e.token_amount;
    trading_fee = int_string e.trading_fee;
    virtual_bnb_reserve = int_string e.virtual_bnb_reserve;
    virtual_token_reserve = int_string e.virtual_token_reserve;
    available_tokens = int_string e.available_tokens;
    collected_bnb = int_string e.collected_bnb;
    block_number = e.block_number;
    block_timestamp = e.block_timestamp;
  }

  -- the table is token_sold_events for a sale, and token_bought_events otherwise
  unfoldable pub insert_trade_event : TokenTradeProjection → Ledger → Unit {0} × Ledger
  insert_trade_event e d =
      let key : String × ℕ = (e.transaction_hash, e.log_index) in
      (
        tt,
        if e.trade_type == trade_type_sell
            then record d {
              token_sold_events = insert_new key (trade_event_row e) d.token_sold_events;
            }
            else record d {
              token_bought_events = insert_new key (trade_event_row e) d.token_bought_events;
            },
      )

  unfoldable pub trade_row : TokenTradeProjection → TradeRow
  unfolding int_string price_string
  trade_row e = record {
    token_address = lower e.token_address;
    user_address = lower e.user_address;
    bnb_amount = int_string e.bnb_amount;
    token_amount = int_string e.token_amount;
    price = price_string e.bnb_amount e.token_amount;
    block_number = e.block_number;
    block_timestamp = e.block_timestamp;
  }

  -- with the rows affected
  unfoldable pub insert_trade : TokenTradeProjection → Ledger → ℕ × Ledger
  insert_trade e d =
      let key : String × ℕ × ℕ = (e.transaction_hash, e.log_index, e.trade_type) in
      (rows_inserted key d.trades, record d { trades = insert_new key (trade_row e) d.trades })

  -- WHERE LOWER(token_contract_address) = LOWER(address)
  unfoldable pub is_token : String → String → Bool
  is_token address stored = lower stored == lower address

  unfoldable pub update_totals : TokenTradeProjection → Ledger → Unit {0} × Ledger
  update_totals e d =
      (tt, record d { tokens = update_where (is_token e.token_address) (set_totals e) d.tokens })

  unfoldable pub graduated_event_row : TokenGraduatedProjection → TokenGraduatedRow
  unfolding int_string
  graduated_event_row e = record {
    token_address = lower e.token_address;
    liquidity_bnb = int_string e.liquidity_bnb;
    liquidity_tokens = int_string e.liquidity_tokens;
    liquidity_result = int_string e.liquidity_result;
    block_number = e.block_number;
    block_timestamp = e.block_timestamp;
  }

  unfoldable pub insert_graduated_event : TokenGraduatedProjection → Ledger → Unit {0} × Ledger
  insert_graduated_event e d = (
    tt,
    record d {
      token_graduated_events =
          insert_new (e.transaction_hash, e.log_index) (graduated_event_row e)
            d.token_graduated_events;
    },
  )

  unfoldable pub mark_graduated : TokenGraduatedProjection → Ledger → Unit {0} × Ledger
  mark_graduated e d =
      (tt, record d { tokens = update_where (is_token e.token_address) (set_graduated e) d.tokens })

-- the SET clause of the upsert into klines
unfoldable pub merge_kline : ℕ → ℕ → KlineRow → KlineRow
merge_kline price volume old = record old {
  high_price = max old.high_price price;
  low_price = min old.low_price price;
  close_price = price;
  volume = old.volume + volume;
}

-- the row of a candle with one trade
unfoldable pub kline_row : ℕ → ℕ → KlineRow
kline_row price volume = record {
  open_price = price;
  high_price = price;
  low_price = price;
  close_price = price;
  volume = volume;
}

unfoldable pub upsert_kline : KlineKey → ℕ → ℕ → Ledger → Unit {0} × Ledger
upsert_kline key price volume d = (
  tt,
  record d { klines = upsert key (kline_row price volume) (merge_kline price volume) d.klines },
)
