-- ===== src/ChainIndexer/Client.antt =====
-- What the indexer calls and does not implement: the RPC client of go-ethereum and the contract's
-- ABI. Every reply may depend on how many calls were made before, so a client can fail at any time
-- and answer the same question in two ways.
use meme_launchpad_backend.Common.{ℕ, String, List}
pub use meme_launchpad_backend.Config.{IndexerConfig}
use meme_launchpad_backend.Postgres.Transaction.{Result}
use meme_launchpad_backend.Ledger.Rows.{Log}

-- `Client`; the first argument is the number of calls made before.
pub record Client : Type 0 where
  pub rpc_chain_id : ℕ → Result ℕ
  pub rpc_block_number : ℕ → Result ℕ
  -- the time of the header with a number
  pub header_time : ℕ → ℕ → Result ℕ
  -- from block, to block
  pub filter_logs : ℕ → ℕ → ℕ → Result (List Log)

-- The values of the events' inputs that are not indexed, in the ABI's order.
abbrev pub CreatedValues : Type 0
CreatedValues = String × String × ℕ × ℕ

abbrev pub TradeValues : Type 0
TradeValues = ℕ × ℕ × ℕ × ℕ × ℕ × ℕ × ℕ

abbrev pub GraduatedValues : Type 0
GraduatedValues = ℕ × ℕ × ℕ

-- The parsed `memeCoreABI`: the events' IDs, and `Inputs.NonIndexed().Unpack`.
pub record Abi : Type 0 where
  pub token_created_id : ℕ
  pub token_bought_id : ℕ
  pub token_sold_id : ℕ
  pub token_graduated_id : ℕ
  pub unpack_created : List ℕ → Result CreatedValues
  pub unpack_bought : List ℕ → Result TradeValues
  pub unpack_sold : List ℕ → Result TradeValues
  pub unpack_graduated : List ℕ → Result GraduatedValues
