-- ===== src/ChainIndexer/Decode.antt =====
-- `decodeProjection` and `decodeProjections`.
use meme_launchpad_backend.Common.{
  ℕ, ◌+◌, ◌%◌, ◌^◌, String, true, false, Option, none, some, List, [], ◌∷◌, ◌==◌, nat_eq,
  if◌then◌else◌,
}
use meme_launchpad_backend.Postgres.Transaction.{msg, Result, ok, err, wrapped}
use meme_launchpad_backend.Postgres.Table.{Table, lookup}
use meme_launchpad_backend.Ledger.Rows.{Encoding, Log, TokenTradeProjection, ChainProjection}
use meme_launchpad_backend.Ledger.Statements.{trade_type_buy, trade_type_sell}
use meme_launchpad_backend.ChainIndexer.Client.{
  Client, Abi, CreatedValues, TradeValues, GraduatedValues,
}

abbrev pub no_projection : ChainProjection
no_projection = record {
  token_created = none;
  token_bought = none;
  token_sold = none;
  token_graduated = none;
}

-- `topicAddress`: the last 20 of 32 bytes
unfoldable pub topic_address : ℕ → ℕ
topic_address topic = topic % 2 ^ 160

-- The time of a block, from `blockTimes` or by a call; with the calls made and the new map.
unfoldable pub block_time : Client → ℕ → Table ℕ ℕ → ℕ → Result ℕ × ℕ × Table ℕ ℕ
block_time client number times calls = elim (lookup number times) [
  | some t ↦ (ok t, calls, times)
  | none ↦ elim (client.header_time calls number) [
    | ok t ↦ (ok t, calls + 1, (number, t) ∷ times)
    | err e ↦ (wrapped "read block header" (err e), calls + 1, times)
  ]
]

abbrev pub push : Option ChainProjection → List ChainProjection → List ChainProjection
push none ps = ps
push (some p) ps = p ∷ ps

-- the rest of the loop after one log was decoded
abbrev pub consing :
    Option ChainProjection → Result (List ChainProjection) × ℕ → Result (List ChainProjection) × ℕ
consing p (ok ps, calls) = (ok (push p ps), calls)
consing p (err e, calls) = (err e, calls)

unfoldable pub and_then {ℓ κ} : {A : Type ℓ} {B : Type κ} → Result A → (A → Result B) → Result B
and_then (ok a) f = f a
and_then (err e) f = err e

module _ (enc : Encoding) where
  abbrev pub topic_hex : ℕ → String
  topic_hex topic = enc.address_hex (topic_address topic)

  -- The topics behind the first; too few of them are an error.
  unfoldable pub created_projection :
      CreatedValues → List ℕ → Log → ℕ → Result (Option ChainProjection)
  unfolding topic_address
  created_projection (name, symbol, supply, request_id) (token ∷ creator ∷ _) log time = ok (
      some (record no_projection {
        token_created = some (record {
          token_address = topic_hex token;
          creator_address = topic_hex creator;
          name = name;
          symbol = symbol;
          total_supply = some supply;
          request_id = enc.hash_hex request_id;
          transaction_hash = enc.hash_hex log.tx_hash;
          block_number = log.block_number;
          block_timestamp = time;
          log_index = log.index;
          initial_bnb_target = none;
          initial_bnb_current = none;
          initial_available = none;
          initial_launch_mode = 0;
          initial_token_status = 0;
        });
      }))
  created_projection _ _ log time = err (msg "TokenCreated missing indexed topics")

  -- the literal of both trade events, after the amounts of BNB and tokens
  unfoldable pub trade_projection : ℕ → ℕ → ℕ → TradeValues → ℕ → ℕ → Log → ℕ → TokenTradeProjection
  unfolding topic_address
  trade_projection trade_type bnb tokens values token user log time = record {
    token_address = topic_hex token;
    user_address = topic_hex user;
    trade_type = trade_type;
    bnb_amount = some bnb;
    token_amount = some tokens;
    trading_fee = some values.2;
    virtual_bnb_reserve = some values.3;
    virtual_token_reserve = some values.4;
    available_tokens = some values.5;
    collected_bnb = some values.6;
    transaction_hash = enc.hash_hex log.tx_hash;
    block_number = log.block_number;
    block_timestamp = time;
    log_index = log.index;
  }

  unfoldable pub bought_projection :
      TradeValues → List ℕ → Log → ℕ → Result (Option ChainProjection)
  unfolding trade_projection
  bought_projection values (token ∷ user ∷ _) log time = ok (
      some (record no_projection {
        token_bought =
            some (trade_projection trade_type_buy values.0 values.1 values token user log time);
      }))
  bought_projection _ _ log time = err (msg "TokenBought missing indexed topics")

  -- A sale has the amount of tokens first.
  unfoldable pub sold_projection : TradeValues → List ℕ → Log → ℕ → Result (Option ChainProjection)
  unfolding trade_projection
  sold_projection values (token ∷ user ∷ _) log time = ok (
      some (record no_projection {
        token_sold =
            some (trade_projection trade_type_sell values.1 values.0 values token user log time);
      }))
  sold_projection _ _ log time = err (msg "TokenSold missing indexed topics")

  unfoldable pub graduated_projection :
      GraduatedValues → List ℕ → Log → ℕ → Result (Option ChainProjection)
  unfolding topic_address
  graduated_projection (bnb, tokens, result) (token ∷ _) log time = ok (
      some (record no_projection {
        token_graduated = some (record {
          token_address = topic_hex token;
          liquidity_bnb = some bnb;
          liquidity_tokens = some tokens;
          liquidity_result = some result;
          transaction_hash = enc.hash_hex log.tx_hash;
          block_number = log.block_number;
          block_timestamp = time;
          log_index = log.index;
        });
      }))
  graduated_projection _ _ log time = err (msg "TokenGraduated missing indexed topics")

  module _ (abi : Abi) where
    -- `decodeProjection` of a log whose topics are `topic0` and `rest`; `none` is `ok = false`.
    unfoldable pub decode_projection : ℕ → List ℕ → Log → ℕ → Result (Option ChainProjection)
    unfolding created_projection bought_projection sold_projection graduated_projection and_then
    decode_projection topic0 rest log time =
        if topic0 == abi.token_created_id
        then and_then (wrapped "unpack TokenCreated" (abi.unpack_created log.log_data))
            (λ values. created_projection values rest log time)
        else if topic0 == abi.token_bought_id
        then and_then (wrapped "unpack TokenBought" (abi.unpack_bought log.log_data))
            (λ values. bought_projection values rest log time)
        else if topic0 == abi.token_sold_id
        then and_then (wrapped "unpack TokenSold" (abi.unpack_sold log.log_data))
            (λ values. sold_projection values rest log time)
        else if topic0 == abi.token_graduated_id
        then and_then (wrapped "unpack TokenGraduated" (abi.unpack_graduated log.log_data))
            (λ values. graduated_projection values rest log time)
        else ok none

    module _ (client : Client) where
      -- the loop of `decodeProjections`, with the projections and the number of calls made
      unfoldable pub decode_from : List Log → Table ℕ ℕ → ℕ → Result (List ChainProjection) × ℕ
      decode_from [] times calls = (ok [], calls)
      decode_from (log ∷ logs) times calls = elim log.topics [
        | [] ↦ decode_from logs times calls
        | topic0 ∷ rest ↦ elim log.removed [
          | true ↦ decode_from logs times calls
          | false ↦
              let (found, calls', times') = block_time client log.block_number times calls in
              elim found [
                | err e ↦ (err e, calls')
                | ok time ↦ elim (decode_projection topic0 rest log time) [
                  | err e ↦ (err e, calls')
                  | ok p ↦ consing p (decode_from logs times' calls')
                ]
              ]
        ]
      ]

      unfoldable pub decode_projections : List Log → ℕ → Result (List ChainProjection) × ℕ
      unfolding decode_from block_time decode_projection
      decode_projections logs calls = decode_from logs [] calls
