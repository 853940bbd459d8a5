-- ===== src/LegacyIndexer/Database.antt =====
-- The functions of apps/indexer/internal/database/events.go and the two of postgres.go that keep
-- the sync position. `lower` is SQL's `LOWER`, and `quotient` the price that `big.Float.Quo` and
-- `Text('f', 18)` give for an amount of BNB and an amount of tokens, in units of 10^-18.
pub mod Klines
pub mod Recount
pub mod Commit
use meme_launchpad_backend.Common.{
  ℕ, String, Bool, true, false, not, ◌||◌, Option, none, some, List, [], ◌∷◌, ◌==◌, nat_eq,
  string_eq, if◌then◌else◌,
}
use meme_launchpad_backend.Postgres.Table.{lookup, upsert}
use meme_launchpad_backend.Postgres.Transaction.{
  Error, wrap, Result, ok, err, M, World, next_fault, broken, pure, raise, within, exec,
  rollback_to, attempt, ◌>>=◌, ◌>>◌, transact,
}
use meme_launchpad_backend.Candle.{align_time_to_interval, intervals}
use meme_launchpad_backend.LegacyIndexer.Rows.{
  TokenCreatedEvent, TokenBoughtEvent, TokenSoldEvent, TokenGraduatedEvent, TradeRow, Tables,
}
use meme_launchpad_backend.LegacyIndexer.Statements.{
  insert_created_event, select_logo, upsert_token, insert_bought_event, insert_sold_event,
  insert_trade, set_totals, insert_graduated_row, set_graduated, update_tokens, upsert_kline,
}

-- the row for trades, whose price is 0
unfoldable pub bought_trade : TokenBoughtEvent → TradeRow
bought_trade e = record {
  token_address = e.token_address;
  user_address = e.buyer_address;
  bnb_amount = e.bnb_amount;
  token_amount = e.token_amount;
  price = 0;
  block_number = e.block_number;
  block_timestamp = e.block_timestamp;
}

-- the row for trades, whose price is 0
unfoldable pub sold_trade : TokenSoldEvent → TradeRow
sold_trade e = record {
  token_address = e.token_address;
  user_address = e.seller_address;
  bnb_amount = e.bnb_amount;
  token_amount = e.token_amount;
  price = 0;
  block_number = e.block_number;
  block_timestamp = e.block_timestamp;
}

-- `validIntervals[interval]`
unfoldable pub valid_interval : List String → String → Bool
valid_interval [] interval = false
valid_interval (i ∷ is) interval = i == interval || valid_interval is interval

-- the loop of `updateKlineData` in a transaction
unfoldable pub update_klines : List String → String → ℕ → ℕ → ℕ → M Tables (Unit {0})
update_klines [] token time price volume = pure tt
update_klines (interval ∷ rest) token time price volume =
    if not (valid_interval intervals interval)
    then update_klines rest token time price volume
    else (do
      exec (upsert_kline (token, interval, align_time_to_interval time interval) price volume)
      update_klines rest token time price volume)

module _ (lower : String → String) (quotient : ℕ → ℕ → ℕ) where
  -- `updateKlineData`; no intervals means all of them
  unfoldable pub update_kline_data :
      String → ℕ → Option ℕ → Option ℕ → List String → M Tables (Unit {0})
  unfolding update_klines valid_interval
  update_kline_data token time none _ is = pure tt
  update_kline_data token time (some bnb) none is = pure tt
  update_kline_data token time (some bnb) (some amount) is =
      if amount == 0
      then pure tt
      else update_klines (elim is [ [] ↦ intervals | i ∷ rest ↦ i ∷ rest ]) token time
          (quotient bnb amount) amount

  -- after `updateKlineData` inside the savepoint at `saved`
  unfoldable pub close_savepoint : Tables → Result (Unit {0}) → M Tables (Unit {0})
  close_savepoint saved (ok _) = within "failed to release savepoint" (exec (λ d. (tt, d)))
  close_savepoint saved (err e) = do
    within "failed to rollback savepoint" (rollback_to saved)
    raise e

  -- `updateKlineDataWithSavepoint`
  unfoldable pub update_kline_data_with_savepoint :
      String → ℕ → Option ℕ → Option ℕ → List String → M Tables (Unit {0})
  unfolding update_kline_data close_savepoint
  update_kline_data_with_savepoint token time bnb amount is = do
    within "failed to create savepoint" (exec (λ d. (tt, d)))
    λ tx.
        let (r, tx') = update_kline_data token time bnb amount is tx in
        close_savepoint tx.tables r tx'

  abbrev pub logo_or_empty : Result (Option String) → String
  logo_or_empty (ok (some logo)) = logo
  logo_or_empty (ok none) = ""
  logo_or_empty (err e) = ""

  -- An error of the query leaves the logo empty; the failed transaction shows at the next statement.
  unfoldable pub find_logo : String → M Tables String
  find_logo request_id tx =
      let (r, tx') = exec (select_logo request_id) tx in (ok (logo_or_empty r), tx')

  -- one event of `InsertTokenCreatedEvent` and `BatchInsertTokenCreatedEvents`
  unfoldable pub created_body : TokenCreatedEvent → M Tables (Unit {0})
  unfolding find_logo
  created_body e = do
    exec (insert_created_event e)
    logo ← find_logo e.request_id
    exec (upsert_token e logo)

  -- one event of `InsertTokenBoughtEvent` and `BatchInsertTokenBoughtEvents`
  unfoldable pub bought_body : TokenBoughtEvent → M Tables (Unit {0})
  bought_body e = do
    exec (insert_bought_event e)
    exec (insert_trade e.transaction_hash 10 (bought_trade e))
    exec (
        update_tokens lower e.token_address
          (set_totals e.collected_bnb e.available_tokens e.block_timestamp))
    attempt (
        update_kline_data_with_savepoint e.token_address e.block_timestamp (some e.bnb_amount)
          (some e.token_amount) [])

  -- one event of `InsertTokenSoldEvent` and `BatchInsertTokenSoldEvents`
  unfoldable pub sold_body : TokenSoldEvent → M Tables (Unit {0})
  sold_body e = do
    exec (insert_sold_event e)
    exec (insert_trade e.transaction_hash 20 (sold_trade e))
    exec (
        update_tokens lower e.token_address
          (set_totals e.collected_bnb e.available_tokens e.block_timestamp))
    attempt (
        update_kline_data_with_savepoint e.token_address e.block_timestamp (some e.bnb_amount)
          (some e.token_amount) [])

  unfoldable pub graduated_body : TokenGraduatedEvent → M Tables (Unit {0})
  graduated_body e = do
    exec (insert_graduated_row e)
    exec (update_tokens lower e.token_address (set_graduated e.block_timestamp))

  abbrev pub Write : Type 0
  Write = World Tables → Result (Unit {0}) × World Tables

  unfoldable pub insert_token_created_event : TokenCreatedEvent → Write
  insert_token_created_event e = transact (λ x. x) (created_body e)

  unfoldable pub insert_token_bought_event : TokenBoughtEvent → Write
  insert_token_bought_event e = transact (λ x. x) (bought_body e)

  unfoldable pub insert_token_sold_event : TokenSoldEvent → Write
  insert_token_sold_event e = transact (λ x. x) (sold_body e)

  unfoldable pub insert_token_graduated_event : TokenGraduatedEvent → Write
  insert_token_graduated_event e = transact (λ x. x) (graduated_body e)

  -- the loop of a batch insert
  unfoldable pub for_each : {E : Type 0} → (E → M Tables (Unit {0})) → List E → M Tables (Unit {0})
  for_each body [] = pure tt
  for_each body (e ∷ es) = do body e; for_each body es

  -- `len(events) == 0` begins no transaction
  unfoldable pub batch : {E : Type 0} → (E → M Tables (Unit {0})) → List E → Write
  batch body [] w = (ok tt, w)
  batch body (e ∷ es) w = transact (λ x. x) (for_each body (e ∷ es)) w

  unfoldable pub batch_insert_token_created_events : List TokenCreatedEvent → Write
  unfolding batch for_each
  batch_insert_token_created_events = batch created_body

  unfoldable pub batch_insert_token_bought_events : List TokenBoughtEvent → Write
  unfolding batch for_each
  batch_insert_token_bought_events = batch bought_body

  unfoldable pub batch_insert_token_sold_events : List TokenSoldEvent → Write
  unfolding batch for_each
  batch_insert_token_sold_events = batch sold_body

-- `GetLastSyncedBlock`: any error of the query, not only a missing row, is block 0.
unfoldable pub get_last_synced_block : String → World Tables → ℕ × World Tables
get_last_synced_block contract w =
    let (bad, rest) = next_fault w.faults in
    let block : ℕ = elim (lookup contract w.db.indexer_state) [ none ↦ 0 | some b ↦ b ] in
    (if bad then 0 else block, record w { faults = rest })

unfoldable pub update_last_synced_block :
    String → ℕ → World Tables → Result (Unit {0}) × World Tables
update_last_synced_block contract block w =
    let (bad, rest) = next_fault w.faults in
    if bad then (err broken, record w { faults = rest }) else (
      ok tt,
      record {
        db = record w.db { indexer_state = upsert contract block (λ _. block) w.db.indexer_state };
        faults = rest;
      },
    )
