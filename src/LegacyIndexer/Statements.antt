-- ===== src/LegacyIndexer/Statements.antt =====
-- The SQL statements of events.go and postgres.go, each as what it returns and leaves in the tables.
use meme_launchpad_backend.Common.{
  ℕ, String, Option, ◌==◌, nat_eq, string_eq, pair_eq, triple_eq, if◌then◌else◌,
}
use meme_launchpad_backend.Postgres.Table.{lookup, insert_new, upsert, update_where}
use meme_launchpad_backend.Ledger.Rows.{TokenCreatedRow, TradeEventRow, TokenGraduatedRow, KlineKey}
use meme_launchpad_backend.Ledger.Statements.{merge_kline, kline_row}
use meme_launchpad_backend.LegacyIndexer.Rows.{
  TokenCreatedEvent, TokenBoughtEvent, TokenSoldEvent, TokenGraduatedEvent, TokenRow, TradeRow,
  Tables,
}

unfoldable pub insert_created_event : TokenCreatedEvent → Tables → Unit {0} × Tables
insert_created_event e d =
    let row : TokenCreatedRow = record {
      token_address = e.token_address;
      creator_address = e.creator_address;
      name = e.name;
      symbol = e.symbol;
      total_supply = e.total_supply;
      request_id = e.request_id;
      block_number = e.block_number;
      block_timestamp = e.block_timestamp;
    } in
    (
      tt,
      record d {
        token_created_events =
            insert_new (e.transaction_hash, e.log_index) row d.token_created_events;
      },
    )

-- SELECT COALESCE(logo, '') FROM token_creation_requests; no row is `none`
unfoldable pub select_logo : String → Tables → Option String × Tables
select_logo request_id d = (lookup request_id d.creation_logos, d)

-- the SET clause of the upsert into tokens
unfoldable pub recreated : TokenRow → TokenRow → TokenRow
recreated fresh old = record old {
  name = fresh.name;
  symbol = fresh.symbol;
  logo = if fresh.logo == "" then old.logo else fresh.logo;
  updated_at = fresh.updated_at;
}

unfoldable pub created_row : TokenCreatedEvent → String → TokenRow
created_row e logo = record {
  name = e.name;
  symbol = e.symbol;
  logo = logo;
  creator_address = e.creator_address;
  launch_mode = 1;
  launch_time = e.block_timestamp;
  bnb_current = 0;
  bnb_target = 24000000000000000000;
  total_supply = e.total_supply;
  available_tokens = 0;
  status = 1;
  request_id = e.request_id;
  nonce = 0;
  created_at = e.block_timestamp;
  updated_at = e.block_timestamp;
}

unfoldable pub upsert_token : TokenCreatedEvent → String → Tables → Unit {0} × Tables
upsert_token e logo d =
    let fresh = created_row e logo in
    (tt, record d { tokens = upsert e.token_address fresh (recreated fresh) d.tokens })

unfoldable pub insert_bought_event : TokenBoughtEvent → Tables → Unit {0} × Tables
insert_bought_event e d =
    let row : TradeEventRow = record {
      token_address = e.token_address;
      user_address = e.buyer_address;
      bnb_amount = e.bnb_amount;
      token_amount = e.token_amount;
      trading_fee = e.trading_fee;
      virtual_bnb_reserve = e.virtual_bnb_reserve;
      virtual_token_reserve = e.virtual_token_reserve;
      available_tokens = e.available_tokens;
      collected_bnb = e.collected_bnb;
      block_number = e.block_number;
      block_timestamp = e.block_timestamp;
    } in
    (
      tt,
      record d {
        token_bought_events =
            insert_new (e.transaction_hash, e.log_index) row d.token_bought_events;
      },
    )

unfoldable pub insert_sold_event : TokenSoldEvent → Tables → Unit {0} × Tables
insert_sold_event e d =
    let row : TradeEventRow = record {
      token_address = e.token_address;
      user_address = e.seller_address;
      bnb_amount = e.bnb_amount;
      token_amount = e.token_amount;
      trading_fee = e.trading_fee;
      virtual_bnb_reserve = e.virtual_bnb_reserve;
      virtual_token_reserve = e.virtual_token_reserve;
      available_tokens = e.available_tokens;
      collected_bnb = e.collected_bnb;
      block_number = e.block_number;
      block_timestamp = e.block_timestamp;
    } in
    (
      tt,
      record d {
        token_sold_events = insert_new (e.transaction_hash, e.log_index) row d.token_sold_events;
      },
    )

-- INSERT INTO trades ... ON CONFLICT (transaction_hash, trade_type) DO NOTHING
unfoldable pub insert_trade : String → ℕ → TradeRow → Tables → Unit {0} × Tables
insert_trade transaction_hash trade_type row d =
    (tt, record d { trades = insert_new (transaction_hash, trade_type) row d.trades })

unfoldable pub set_totals : ℕ → ℕ → ℕ → TokenRow → TokenRow
set_totals collected available time row = record row {
  bnb_current = collected;
  available_tokens = available;
  updated_at = time;
}

unfoldable pub insert_graduated_row : TokenGraduatedEvent → Tables → Unit {0} × Tables
insert_graduated_row e d =
    let row : TokenGraduatedRow = record {
      token_address = e.token_address;
      liquidity_bnb = e.liquidity_bnb;
      liquidity_tokens = e.liquidity_tokens;
      liquidity_result = e.liquidity_result;
      block_number = e.block_number;
      block_timestamp = e.block_timestamp;
    } in
    (
      tt,
      record d {
        token_graduated_events =
            insert_new (e.transaction_hash, e.log_index) row d.token_graduated_events;
      },
    )

unfoldable pub set_graduated : ℕ → TokenRow → TokenRow
set_graduated time row = record row { status = 3; updated_at = time }

-- UPDATE tokens ... WHERE LOWER(token_contract_address) = LOWER(address)
unfoldable pub update_tokens :
    (String → String) → String → (TokenRow → TokenRow) → Tables → Unit {0} × Tables
update_tokens lower address set d =
    (tt, record d { tokens = update_where (λ stored. lower stored == lower address) set d.tokens })

unfoldable pub upsert_kline : KlineKey → ℕ → ℕ → Tables → Unit {0} × Tables
upsert_kline key price volume d = (
  tt,
  record d { klines = upsert key (kline_row price volume) (merge_kline price volume) d.klines },
)
