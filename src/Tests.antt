-- ===== src/Tests.antt =====
-- Concrete inputs for the theorems: an encoding, an ABI, clients, configurations, events and tables.
mod Rebuild
mod Legacy
mod Wallet
mod Accounts
mod Settings
mod Signing
mod Launch
mod Visitor
mod Candles
mod Services
mod Lists
use meme_launchpad_backend.Common.{
  ℕ, ◌*◌, ◌^◌, String, Bool, true, false, none, some, List, [], ◌∷◌, ◌==◌, nat_eq, string_eq,
  if◌then◌else◌,
}
use meme_launchpad_backend.Postgres.Transaction.{msg, ok, err, World}
use meme_launchpad_backend.Ledger.Rows.{
  Encoding, Log, TokenTradeProjection, ChainProjection, Ledger,
}
use meme_launchpad_backend.ChainIndexer.Client.{Client, Abi, IndexerConfig}
use meme_launchpad_backend.ChainIndexer.Sync.{State}
use meme_launchpad_backend.LegacyIndexer.Rows.{TokenBoughtEvent, TokenSoldEvent, Tables}

abbrev pub small : String → String
small s = if s == "0xAB" then "0xab" else s

abbrev pub enc : Encoding
enc = record {
  hash_hex = λ h. if h == 1 then "0x01" else "0x02";
  address_hex = λ a. if a == 171 then "0xAB" else "0xcd";
  bytes_hex = λ _. "0x";
  lower = small;
}

abbrev pub abi : Abi
abi = record {
  token_created_id = 1;
  token_bought_id = 2;
  token_sold_id = 3;
  token_graduated_id = 4;
  unpack_created = λ _. ok ("Meme", "MEME", 10 ^ 27, 1);
  unpack_bought = λ _. ok (10 ^ 18, 5 * 10 ^ 18, 10 ^ 16, 2, 3, 4, 5);
  unpack_sold = λ _. ok (5 * 10 ^ 18, 10 ^ 18, 10 ^ 16, 2, 3, 4, 5);
  unpack_graduated = λ _. ok (1, 2, 3);
}

-- 14 November 2023, 22:13:20
abbrev pub noon : ℕ
noon = 1700000000

abbrev pub purchase_log : Log
purchase_log = record {
  topics = 2 ∷ 171 ∷ 205 ∷ [];
  log_data = [];
  block_number = 3;
  block_hash = 7;
  tx_hash = 1;
  index = 0;
  removed = false;
}

-- A chain whose latest block is 5, with one purchase in every range.
abbrev pub client : Client
client = record {
  rpc_chain_id = λ _. ok 97;
  rpc_block_number = λ _. ok 5;
  header_time = λ _ _. ok noon;
  filter_logs = λ _ _ _. ok (purchase_log ∷ []);
}

-- The same chain behind a node that refuses large ranges.
abbrev pub limited : Client
limited = record client { filter_logs = λ _ _ _. err (msg "limit exceeded") }

abbrev pub config : IndexerConfig
config = record {
  rpc_url = "http://node";
  chain_id = 97;
  core_contract = "0xAB";
  start_block = 3;
  block_batch_size = 2;
  poll_interval = 5;
}

abbrev pub empty : Ledger
empty = record {
  chain_events = [];
  checkpoints = [];
  token_created_events = [];
  token_bought_events = [];
  token_sold_events = [];
  token_graduated_events = [];
  tokens = [];
  trades = [];
  klines = [];
}

-- A database whose fourth statement fails.
abbrev pub shaky : World Ledger
shaky = record { db = empty; faults = false ∷ false ∷ false ∷ true ∷ [] }

abbrev pub purchase : TokenTradeProjection
purchase = record {
  token_address = "0xAB";
  user_address = "0xcd";
  trade_type = 10;
  bnb_amount = some (10 ^ 18);
  token_amount = some (5 * 10 ^ 18);
  trading_fee = some 0;
  virtual_bnb_reserve = none;
  virtual_token_reserve = none;
  available_tokens = some 7;
  collected_bnb = some 8;
  transaction_hash = "0x01";
  block_number = 3;
  block_timestamp = noon;
  log_index = 0;
}

abbrev pub bought : ChainProjection
bought = record {
  token_created = none;
  token_bought = some purchase;
  token_sold = none;
  token_graduated = none;
}

abbrev pub at_start : State
at_start = record { next = 3; calls = 2; world = record { db = empty; faults = [] } }

abbrev pub quotient : ℕ → ℕ → ℕ
quotient bnb amount = 10

abbrev pub empty_tables : Tables
empty_tables = record {
  creation_logos = [];
  indexer_state = [];
  token_created_events = [];
  token_bought_events = [];
  token_sold_events = [];
  token_graduated_events = [];
  tokens = [];
  trades = [];
  klines = [];
}

-- A database whose seventh statement fails, the update of the first candle of a trade.
abbrev pub shaky_tables : World Tables
shaky_tables = record {
  db = empty_tables;
  faults = false ∷ false ∷ false ∷ false ∷ false ∷ false ∷ true ∷ [];
}

abbrev pub purchase_event : TokenBoughtEvent
purchase_event = record {
  token_address = "0xAB";
  buyer_address = "0xcd";
  bnb_amount = 10 ^ 18;
  token_amount = 5 * 10 ^ 18;
  trading_fee = 10 ^ 16;
  virtual_bnb_reserve = 2;
  virtual_token_reserve = 3;
  available_tokens = 4;
  collected_bnb = 5;
  transaction_hash = "0x01";
  block_number = 3;
  block_timestamp = noon;
  log_index = 0;
}

-- A second purchase of the same transaction.
abbrev pub second_purchase : TokenBoughtEvent
second_purchase = record purchase_event { token_amount = 6; log_index = 1 }

abbrev pub sale_event : TokenSoldEvent
sale_event = record {
  token_address = "0xAB";
  seller_address = "0xcd";
  token_amount = 5 * 10 ^ 18;
  bnb_amount = 10 ^ 18;
  trading_fee = 10 ^ 16;
  virtual_bnb_reserve = 2;
  virtual_token_reserve = 3;
  available_tokens = 4;
  collected_bnb = 5;
  transaction_hash = "0x02";
  block_number = 3;
  block_timestamp = noon;
  log_index = 2;
}
