-- ===== src/LegacyIndexer/Parse.antt =====
-- The four `parse…Event` functions of apps/indexer/internal/indexer/indexer.go and the `switch` that
-- calls them. The ABI's values fill the event structs of the source by name.
use meme_launchpad_backend.Common.{ℕ, List, [], ◌∷◌, ◌++◌, ◌==◌, nat_eq, if◌then◌else◌}
use meme_launchpad_backend.Postgres.Transaction.{Result, ok, err}
use meme_launchpad_backend.Ledger.Rows.{Encoding, Log}
use meme_launchpad_backend.ChainIndexer.Client.{Abi, CreatedValues, TradeValues, GraduatedValues}
use meme_launchpad_backend.ChainIndexer.Decode.{topic_hex}
use meme_launchpad_backend.LegacyIndexer.Rows.{
  TokenCreatedEvent, TokenBoughtEvent, TokenSoldEvent, TokenGraduatedEvent,
}

-- The lists that `syncBlockRange` collects.
pub record Events : Type 0 where
  pub created : List TokenCreatedEvent
  pub bought : List TokenBoughtEvent
  pub sold : List TokenSoldEvent
  pub graduated : List TokenGraduatedEvent

abbrev pub no_events : Events
no_events = record { created = []; bought = []; sold = []; graduated = [] }

-- How one log of the loop is handled: an event is collected, an error is logged, or the process stops
-- on an index out of range.
pub data Handled : Type 0 where
  collected : Events → Handled
  skipped : Handled
  panicked : Handled

module _ (enc : Encoding) where
  -- `parseTokenCreatedEvent`; the topics are those behind the first
  unfoldable pub parse_created : Result CreatedValues → List ℕ → Log → ℕ → Events → Handled
  parse_created (err _) topics log time evs = skipped
  parse_created (ok (name, symbol, supply, request_id)) (token ∷ creator ∷ _) log time evs =
      collected (record evs {
        created =
            evs.created
            ++ (record {
              token_address = topic_hex enc token;
              creator_address = topic_hex enc creator;
              name = name;
              symbol = symbol;
              total_supply = supply;
              request_id = enc.hash_hex request_id;
              transaction_hash = enc.hash_hex log.tx_hash;
              block_number = log.block_number;
              block_timestamp = time;
              log_index = log.index;
            })
              ∷ [];
      })
  parse_created (ok _) _ log time evs = panicked

  -- `parseTokenBoughtEvent`
  unfoldable pub parse_bought : Result TradeValues → List ℕ → Log → ℕ → Events → Handled
  parse_bought (err _) topics log time evs = skipped
  parse_bought (ok values) (token ∷ buyer ∷ _) log time evs = collected (record evs {
    bought =
        evs.bought
        ++ (record {
          token_address = topic_hex enc token;
          buyer_address = topic_hex enc buyer;
          bnb_amount = values.0;
          token_amount = values.1;
          trading_fee = values.2;
          virtual_bnb_reserve = values.3;
          virtual_token_reserve = values.4;
          available_tokens = values.5;
          collected_bnb = values.6;
          transaction_hash = enc.hash_hex log.tx_hash;
          block_number = log.block_number;
          block_timestamp = time;
          log_index = log.index;
        })
          ∷ [];
  })
  parse_bought (ok _) _ log time evs = panicked

  -- `parseTokenSoldEvent`: the amount of tokens comes first
  unfoldable pub parse_sold : Result TradeValues → List ℕ → Log → ℕ → Events → Handled
  parse_sold (err _) topics log time evs = skipped
  parse_sold (ok values) (token ∷ seller ∷ _) log time evs = collected (record evs {
    sold =
        evs.sold
        ++ (record {
          token_address = topic_hex enc token;
          seller_address = topic_hex enc seller;
          token_amount = values.0;
          bnb_amount = values.1;
          trading_fee = values.2;
          virtual_bnb_reserve = values.3;
          virtual_token_reserve = values.4;
          available_tokens = values.5;
          collected_bnb = values.6;
          transaction_hash = enc.hash_hex log.tx_hash;
          block_number = log.block_number;
          block_timestamp = time;
          log_index = log.index;
        })
          ∷ [];
  })
  parse_sold (ok _) _ log time evs = panicked

  -- `parseTokenGraduatedEvent`
  unfoldable pub parse_graduated : Result GraduatedValues → List ℕ → Log → ℕ → Events → Handled
  parse_graduated (err _) topics log time evs = skipped
  parse_graduated (ok (bnb, tokens, result)) (token ∷ _) log time evs = collected (record evs {
    graduated =
        evs.graduated
        ++ (record {
          token_address = topic_hex enc token;
          liquidity_bnb = bnb;
          liquidity_tokens = tokens;
          liquidity_result = result;
          transaction_hash = enc.hash_hex log.tx_hash;
          block_number = log.block_number;
          block_timestamp = time;
          log_index = log.index;
        })
          ∷ [];
  })
  parse_graduated (ok _) _ log time evs = panicked

  module _ (abi : Abi) where
    -- the `switch` on `vLog.Topics[0]`
    unfoldable pub handle_log : Log → ℕ → Events → Handled
    unfolding parse_created parse_bought parse_sold parse_graduated
    handle_log log time evs = elim log.topics [
      | [] ↦ panicked
      | topic0 ∷ rest ↦
          if topic0 == abi.token_created_id
          then parse_created (abi.unpack_created log.log_data) rest log time evs
          else if topic0 == abi.token_bought_id
          then parse_bought (abi.unpack_bought log.log_data) rest log time evs
          else if topic0 == abi.token_sold_id
          then parse_sold (abi.unpack_sold log.log_data) rest log time evs
          else if topic0 == abi.token_graduated_id
          then parse_graduated (abi.unpack_graduated log.log_data) rest log time evs
          else skipped
    ]
