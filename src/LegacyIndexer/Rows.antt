-- ===== src/LegacyIndexer/Rows.antt =====
-- The events of apps/indexer/internal/types/events.go, and the tables that they are written to.
-- A `*big.Int` of an event is never nil, and is a natural number: it is decoded from a `uint256`.
use meme_launchpad_backend.Common.{ℕ, String}
use meme_launchpad_backend.Postgres.Table.{Table}
use meme_launchpad_backend.Ledger.Rows.{
  TokenCreatedRow, TradeEventRow, TokenGraduatedRow, KlineRow, KlineKey,
}

pub record TokenCreatedEvent : Type 0 where
  pub token_address : String
  pub creator_address : String
  pub name : String
  pub symbol : String
  pub total_supply : ℕ
  pub request_id : String
  pub transaction_hash : String
  pub block_number : ℕ
  pub block_timestamp : ℕ
  pub log_index : ℕ

pub record TokenBoughtEvent : Type 0 where
  pub token_address : String
  pub buyer_address : String
  pub bnb_amount : ℕ
  pub token_amount : ℕ
  pub trading_fee : ℕ
  pub virtual_bnb_reserve : ℕ
  pub virtual_token_reserve : ℕ
  pub available_tokens : ℕ
  pub collected_bnb : ℕ
  pub transaction_hash : String
  pub block_number : ℕ
  pub block_timestamp : ℕ
  pub log_index : ℕ

pub record TokenSoldEvent : Type 0 where
  pub token_address : String
  pub seller_address : String
  pub token_amount : ℕ
  pub bnb_amount : ℕ
  pub trading_fee : ℕ
  pub virtual_bnb_reserve : ℕ
  pub virtual_token_reserve : ℕ
  pub available_tokens : ℕ
  pub collected_bnb : ℕ
  pub transaction_hash : String
  pub block_number : ℕ
  pub block_timestamp : ℕ
  pub log_index : ℕ

pub record TokenGraduatedEvent : Type 0 where
  pub token_address : String
  pub liquidity_bnb : ℕ
  pub liquidity_tokens : ℕ
  pub liquidity_result : ℕ
  pub transaction_hash : String
  pub block_number : ℕ
  pub block_timestamp : ℕ
  pub log_index : ℕ

-- A row of the API's tokens table, in the columns that the indexer writes; `bnb_current` and
-- `available_tokens` start at the columns' default, 0.
pub record TokenRow : Type 0 where
  pub name : String
  pub symbol : String
  pub logo : String
  pub creator_address : String
  pub launch_mode : ℕ
  pub launch_time : ℕ
  pub bnb_current : ℕ
  pub bnb_target : ℕ
  pub total_supply : ℕ
  pub available_tokens : ℕ
  pub status : ℕ
  pub request_id : String
  pub nonce : ℕ
  pub created_at : ℕ
  pub updated_at : ℕ

pub record TradeRow : Type 0 where
  pub token_address : String
  pub user_address : String
  pub bnb_amount : ℕ
  pub token_amount : ℕ
  pub price : ℕ
  pub block_number : ℕ
  pub block_timestamp : ℕ

-- The tables, each under its unique constraint; a trade stands under (transaction_hash, trade_type).
-- `creation_logos` has the column `logo` of token_creation_requests by request.
pub record Tables : Type 0 where
  pub creation_logos : Table String String
  pub indexer_state : Table String ℕ
  pub token_created_events : Table (String × ℕ) TokenCreatedRow
  pub token_bought_events : Table (String × ℕ) TradeEventRow
  pub token_sold_events : Table (String × ℕ) TradeEventRow
  pub token_graduated_events : Table (String × ℕ) TokenGraduatedRow
  pub tokens : Table String TokenRow
  pub trades : Table (String × ℕ) TradeRow
  pub klines : Table KlineKey KlineRow
