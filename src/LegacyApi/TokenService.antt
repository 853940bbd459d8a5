-- ===== src/LegacyApi/TokenService.antt =====
-- `TokenService` of apps/api/internal/service/token/service.go: the records, the database and the parts of
-- `CreateToken`. The tables are nonce_sequence and token_creation_requests of
-- apps/api/migrations/001_init.sql.
pub mod Create
pub mod Laws
pub mod Nonces
pub mod Saved
pub mod Chosen
use meme_launchpad_backend.Common.{
  ℕ, ◌+◌, ◌*◌, ◌^◌, String, Bool, not, ◌||◌, Option, none, some, List, [], ◌∷◌, map, ◌==◌, nat_eq,
  string_eq, if◌then◌else◌,
}
use meme_launchpad_backend.Fallible.{Error, msg, wrap, Result, ok, err}
use meme_launchpad_backend.Go.Strconv.{ℤ, pos, int_string, to_unsigned}
use meme_launchpad_backend.Go.Strings.{◌<>◌}
use meme_launchpad_backend.Postgres.Table.{Table, lookup, update_where}
use meme_launchpad_backend.Postgres.Transaction.{World, next_fault, broken}
use meme_launchpad_backend.LegacyApi.{VestingAllocation, CreateTokenParams, Packages}
use meme_launchpad_backend.LegacyApi.Create2.{Create2Calculator, new_create2_calculator}
use meme_launchpad_backend.LegacyApi.Signer.{Signer, new_signer}

abbrev pub default_total_supply : ℕ
default_total_supply = 10 ^ 9 * 10 ^ 18

abbrev pub default_sale_amount : ℕ
default_sale_amount = 8 * 10 ^ 8 * 10 ^ 18

abbrev pub default_virtual_bnb_reserve : ℕ
default_virtual_bnb_reserve = 8219178082191780000

abbrev pub default_virtual_token_reserve : ℕ
default_virtual_token_reserve = 1073972602 * 10 ^ 18

-- `tokenModel`: nil, with a nil database, or with one
pub data TokenModel : Type 0 where
  nil_model nil_database connected : TokenModel

pub record TokenService (Key : Type 0) : Type 0 where
  pub token_model : TokenModel
  pub signer : Option (Signer Key)
  pub create2_calc : Option Create2Calculator
  pub core_contract : ℕ
  pub factory_contract : ℕ
  pub rpc_url : String
  pub chain_id : ℕ

pub record VestingAllocationInput : Type 0 where
  pub amount : ℤ
  pub launch_time : ℤ
  pub duration : ℤ
  pub mode : ℤ

pub record CreateTokenRequest : Type 0 where
  pub name : String
  pub symbol : String
  pub description : String
  pub logo : String
  pub banner : String
  pub creator : String
  pub launch_mode : ℤ
  pub launch_time : ℤ
  pub initial_buy_percentage : ℤ
  pub margin_bnb : Option ℤ
  pub margin_time : ℤ
  pub vesting_allocations : List VestingAllocationInput
  pub website : String
  pub twitter : String
  pub telegram : String
  pub discord : String
  pub whitepaper : String
  pub contact_email : String
  pub contact_tg : String
  pub tags : List String
  pub digits : String

pub record CreateTokenResponse : Type 0 where
  pub request_id : String
  pub create2_salt : String
  pub create_arg : String
  pub nonce : ℕ
  pub predicted_address : String
  pub signature : String
  pub timestamp : ℕ

-- the columns of the INSERT
pub record CreationRow : Type 0 where
  pub request_id : String
  pub creator_address : String
  pub name : String
  pub symbol : String
  pub description : String
  pub logo : String
  pub banner : String
  pub total_supply : String
  pub sale_amount : String
  pub virtual_bnb_reserve : String
  pub virtual_token_reserve : String
  pub launch_mode : ℤ
  pub launch_time : ℤ
  pub creation_fee : String
  pub nonce : ℕ
  pub salt : String
  pub predicted_address : String
  pub signature : String
  pub encoded_data : String
  pub initial_buy_percentage : ℤ
  pub margin_bnb : String
  pub margin_time : ℤ
  pub vesting_allocations : String
  pub website : String
  pub twitter : String
  pub telegram : String
  pub discord : String
  pub whitepaper : String
  pub contact_email : String
  pub contact_tg : String
  pub tags : List String
  pub status : ℕ
  pub timestamp : ℕ

pub record Tables : Type 0 where
  -- current_nonce by chain_id
  pub nonce_sequence : Table ℕ ℕ
  -- by request_id
  pub token_creation_requests : Table String CreationRow

-- One statement outside a transaction: the database may refuse it, and a statement that fails has no
-- effect.
unfoldable pub run :
    {A : Type 0} → (Tables → Result (A × Tables)) → World Tables → Result A × World Tables
run statement w =
    let (bad, rest) = next_fault w.faults in
    if bad then (err broken, record w { faults = rest }) else elim (statement w.db) [
      | err e ↦ (err e, record w { faults = rest })
      | ok (a, tables) ↦ (ok a, record { db = tables; faults = rest })
    ]

abbrev pub no_rows : Error
no_rows = msg "no rows in result set"

-- UPDATE nonce_sequence ... RETURNING current_nonce
unfoldable pub update_nonce : ℕ → Tables → Result (ℕ × Tables)
unfolding lookup update_where
update_nonce chain_id d = elim (lookup chain_id d.nonce_sequence) [
  | none ↦ err no_rows
  | some n ↦ ok (
    n + 1,
    record d { nonce_sequence = update_where (λ c. c == chain_id) (λ n. n + 1) d.nonce_sequence },
  )
]

-- INSERT INTO nonce_sequence (..., created_at, ...): the table has no column of this name.
abbrev pub insert_nonce : Tables → Result (Unit {0} × Tables)
insert_nonce d = err (msg "column \"created_at\" of relation \"nonce_sequence\" does not exist")

-- SELECT current_nonce
unfoldable pub select_nonce : ℕ → Tables → Result (ℕ × Tables)
unfolding lookup
select_nonce chain_id d = elim (lookup chain_id d.nonce_sequence) [
  | none ↦ err no_rows
  | some n ↦ ok (n, d)
]

abbrev pub no_model : Error
no_model = msg "token model is not initialized"

abbrev pub no_database : Error
no_database = msg "database connection is not available"

-- What follows the UPDATE: when it has failed, an INSERT, whose error is dropped, and a SELECT.
unfoldable pub fallback : ℕ → Result ℕ × World Tables → Result ℕ × World Tables
unfolding run select_nonce
fallback chain_id (ok n, w) = (ok n, w)
fallback chain_id (err _, w) = run (select_nonce chain_id) (run insert_nonce w).1

-- `getNextNonce`
unfoldable pub get_next_nonce : TokenModel → ℕ → World Tables → Result ℕ × World Tables
unfolding run update_nonce fallback
get_next_nonce nil_model chain_id w = (err no_model, w)
get_next_nonce nil_database chain_id w = (err no_database, w)
get_next_nonce connected chain_id w = fallback chain_id (run (update_nonce chain_id) w)

-- strings.Join(parts, ",")
unfoldable pub join : List String → String
join [] = ""
join (part ∷ []) = part
join (part ∷ next ∷ parts) = part <> "," <> join (next ∷ parts)

abbrev pub vesting_part : VestingAllocationInput → String
vesting_part v =
    "{\"amount\":" <> int_string v.amount <> ",\"duration\":" <> int_string v.duration <> "}"

unfoldable pub vesting_json : List VestingAllocationInput → String
unfolding join int_string
vesting_json vs = "[" <> join (map vesting_part vs) <> "]"

-- INSERT INTO token_creation_requests
unfoldable pub insert_creation : CreationRow → Tables → Result (Unit {0} × Tables)
unfolding lookup
insert_creation row d = elim (lookup row.request_id d.token_creation_requests) [
  | some _ ↦ err (msg "duplicate key value violates unique constraint")
  | none ↦
      ok (
        tt,
        record d { token_creation_requests = (row.request_id, row) ∷ d.token_creation_requests },
      )
]

module _ {Key : Type 0} (lib : Packages Key) where
  -- a failure is printed and leaves the pointer nil
  abbrev pub pointer : {A : Type 0} → Result A → Option A
  pointer (ok a) = some a
  pointer (err _) = none

  unfoldable pub new_token_service :
      String → String → String → String → String → ℕ → TokenModel → TokenService Key
  unfolding new_signer new_create2_calculator
  new_token_service signer_private_key core_contract factory_contract bytecode rpc_url chain_id
        token_model =
      record {
        token_model = token_model;
        signer =
            if signer_private_key == "" then none else pointer (new_signer lib signer_private_key);
        create2_calc =
            if factory_contract == "" || bytecode == ""
            then none
            else pointer (new_create2_calculator lib factory_contract bytecode);
        core_contract = lib.hex_to_address core_contract;
        factory_contract = lib.hex_to_address factory_contract;
        rpc_url = rpc_url;
        chain_id = chain_id;
      }
