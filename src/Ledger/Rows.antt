-- ===== src/Ledger/Rows.antt =====
-- The projections that the indexer hands over, and the rows of the tables that they are written to.
-- A `*big.Int` is an `Option` of a natural number: all of them are decoded from `uint256`.
use meme_launchpad_backend.Common.{ℕ, Bool, String, List, Option}
use meme_launchpad_backend.Postgres.Table.{Table}

-- What go-ethereum and PostgreSQL print: `common.Hash.Hex`, `common.Address.Hex`, the `%x` of bytes
-- behind "0x", and `LOWER`.
pub record Encoding : Type 0 where
  pub hash_hex : ℕ → String
  pub address_hex : ℕ → String
  pub bytes_hex : List ℕ → String
  pub lower : String → String

-- types.Log, in the fields that are read; hashes and addresses are numbers, data is a list of bytes.
pub record Log : Type 0 where
  pub topics : List ℕ
  pub log_data : List ℕ
  pub block_number : ℕ
  pub block_hash : ℕ
  pub tx_hash : ℕ
  pub index : ℕ
  pub removed : Bool

pub record TokenCreatedProjection : Type 0 where
  pub token_address : String
  pub creator_address : String
  pub name : String
  pub symbol : String
  pub total_supply : Option ℕ
  pub request_id : String
  pub transaction_hash : String
  pub block_number : ℕ
  pub block_timestamp : ℕ
  pub log_index : ℕ
  pub initial_bnb_target : Option ℕ
  pub initial_bnb_current : Option ℕ
  pub initial_available : Option ℕ
  pub initial_launch_mode : ℕ
  pub initial_token_status : ℕ

pub record TokenTradeProjection : Type 0 where
  pub token_address : String
  pub user_address : String
  pub trade_type : ℕ
  pub bnb_amount : Option ℕ
  pub token_amount : Option ℕ
  pub trading_fee : Option ℕ
  pub virtual_bnb_reserve : Option ℕ
  pub virtual_token_reserve : Option ℕ
  pub available_tokens : Option ℕ
  pub collected_bnb : Option ℕ
  pub transaction_hash : String
  pub block_number : ℕ
  pub block_timestamp : ℕ
  pub log_index : ℕ

pub record TokenGraduatedProjection : Type 0 where
  pub token_address : String
  pub liquidity_bnb : Option ℕ
  pub liquidity_tokens : Option ℕ
  pub liquidity_result : Option ℕ
  pub transaction_hash : String
  pub block_number : ℕ
  pub block_timestamp : ℕ
  pub log_index : ℕ

pub record ChainProjection : Type 0 where
  pub token_created : Option TokenCreatedProjection
  pub token_bought : Option TokenTradeProjection
  pub token_sold : Option TokenTradeProjection
  pub token_graduated : Option TokenGraduatedProjection

pub record ChainEventRow : Type 0 where
  pub contract_address : String
  pub block_number : ℕ
  pub block_hash : String
  pub topic0 : String
  pub topics : List String
  pub log_data : String
  pub removed : Bool

pub record TokenCreatedRow : Type 0 where
  pub token_address : String
  pub creator_address : String
  pub name : String
  pub symbol : String
  pub total_supply : ℕ
  pub request_id : String
  pub block_number : ℕ
  pub block_timestamp : ℕ

pub record TokenRow : Type 0 where
  pub name : String
  pub symbol : String
  pub creator_address : String
  pub launch_mode : ℕ
  pub bnb_current : ℕ
  pub bnb_target : ℕ
  pub total_supply : ℕ
  pub available_tokens : ℕ
  pub status : ℕ
  pub created_at : ℕ
  pub updated_at : ℕ

-- `user_address` is the column `buyer_address` or `seller_address`.
pub record TradeEventRow : Type 0 where
  pub token_address : String
  pub user_address : String
  pub bnb_amount : ℕ
  pub token_amount : ℕ
  pub trading_fee : ℕ
  pub virtual_bnb_reserve : ℕ
  pub virtual_token_reserve : ℕ
  pub available_tokens : ℕ
  pub collected_bnb : ℕ
  pub block_number : ℕ
  pub block_timestamp : ℕ

-- `price` in units of 10^-18.
pub record TradeRow : Type 0 where
  pub token_address : String
  pub user_address : String
  pub bnb_amount : ℕ
  pub token_amount : ℕ
  pub price : ℕ
  pub block_number : ℕ
  pub block_timestamp : ℕ

pub record TokenGraduatedRow : Type 0 where
  pub token_address : String
  pub liquidity_bnb : ℕ
  pub liquidity_tokens : ℕ
  pub liquidity_result : ℕ
  pub block_number : ℕ
  pub block_timestamp : ℕ

pub record KlineRow : Type 0 where
  pub open_price : ℕ
  pub high_price : ℕ
  pub low_price : ℕ
  pub close_price : ℕ
  pub volume : ℕ

-- (token_address, interval, open_time)
abbrev pub KlineKey : Type 0
KlineKey = String × String × ℕ

-- The tables, each under the columns of its unique constraint: a chain event under (chain_id,
-- transaction_hash, log_index), a trade under (transaction_hash, log_index, trade_type).
pub record Ledger : Type 0 where
  pub chain_events : Table (ℕ × String × ℕ) ChainEventRow
  pub checkpoints : Table (ℕ × String) ℕ
  pub token_created_events : Table (String × ℕ) TokenCreatedRow
  pub token_bought_events : Table (String × ℕ) TradeEventRow
  pub token_sold_events : Table (String × ℕ) TradeEventRow
  pub token_graduated_events : Table (String × ℕ) TokenGraduatedRow
  pub tokens : Table String TokenRow
  pub trades : Table (String × ℕ × ℕ) TradeRow
  pub klines : Table KlineKey KlineRow
