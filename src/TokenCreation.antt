-- ===== src/TokenCreation.antt =====
-- Signed token creation of the rebuild: app-rebuild/internal/tokencreation/service.go and its table in
-- app-rebuild/internal/repository/token_creation.go. An address is a number below 2^160 and a hash the
-- list of its bytes.
pub mod Service
pub mod Signed
pub mod Stored
use meme_launchpad_backend.Common.{
  ℕ, ◌*◌, ◌^◌, String, none, some, Option, List, [], ◌∷◌, if◌then◌else◌, string_eq,
}
use meme_launchpad_backend.Fallible.{msg, wrap, Result, ok, err}
use meme_launchpad_backend.Postgres.Table.{Table, lookup}
use meme_launchpad_backend.Postgres.Transaction.{World, next_fault, broken}

abbrev pub total_supply : ℕ
total_supply = 1000000000 * 10 ^ 18

abbrev pub sale_amount : ℕ
sale_amount = 800000000 * 10 ^ 18

abbrev pub virtual_bnb_reserve : ℕ
virtual_bnb_reserve = 8219178082191780000

abbrev pub virtual_token_reserve : ℕ
virtual_token_reserve = 1073972602 * 10 ^ 18

abbrev pub max_initial_buy_percentage : ℕ
max_initial_buy_percentage = 9990

-- `Key` is the type of private keys; a nil key is `none`.
pub record Config (Key : Type 0) : Type 0 where
  pub chain_id : ℕ
  pub core : ℕ
  pub factory : ℕ
  pub token_creation_bytecode : List ℕ
  pub signer : Option Key

pub record Request : Type 0 where
  pub name : String
  pub symbol : String
  pub creator : ℕ
  pub launch_time : ℕ
  pub initial_buy_percentage : ℕ

pub record Response : Type 0 where
  pub call_data : String
  pub signature : String
  pub request_id : String
  pub salt : String
  pub predicted_address : String
  pub nonce : ℕ
  pub timestamp : ℕ

pub record Vesting : Type 0 where
  pub amount : ℕ
  pub launch_time : ℕ
  pub duration : ℕ
  pub mode : ℕ

pub record Params : Type 0 where
  pub name : String
  pub symbol : String
  pub total_supply : ℕ
  pub sale_amount : ℕ
  pub virtual_bnb_reserve : ℕ
  pub virtual_token_reserve : ℕ
  pub launch_time : ℕ
  pub creator : ℕ
  pub timestamp : ℕ
  pub request_id : List ℕ
  pub nonce : ℕ
  pub initial_buy_percentage : ℕ
  pub margin_bnb : ℕ
  pub margin_time : ℕ
  pub vesting_allocations : List Vesting

-- What the service calls of go-ethereum: Keccak256, `Address.Hex`, the ABI's packing of the
-- create-token tuple and of the constructor's arguments (name, symbol, supply, core), and `Sign`.
pub record Packages (Key : Type 0) : Type 0 where
  pub keccak256 : List ℕ → List ℕ
  pub address_hex : ℕ → String
  pub pack_params : Params → Result (List ℕ)
  pub pack_constructor : String → String → ℕ → ℕ → Result (List ℕ)
  pub sign : List ℕ → Key → Result (List ℕ)

-- `repository.TokenCreationRequest`
pub record TokenCreationRequest : Type 0 where
  pub request_id : String
  pub creator_address : String
  pub name : String
  pub symbol : String
  pub call_data : String
  pub signature : String
  pub salt : String
  pub predicted_address : String
  pub nonce : ℕ
  pub timestamp : ℕ

-- `Store` over a state
pub record Store (S : Type 0) : Type 0 where
  pub create : TokenCreationRequest → S → Result (Unit {0}) × S

-- the table token_creation_requests by its primary key, and the faults of the database
abbrev pub Requests : Type 0
Requests = World (Table String TokenCreationRequest)

abbrev pub duplicate_key : Result (Unit {0})
duplicate_key = err (msg "duplicate key value violates unique constraint")

-- `TokenCreationRepository.Create`, an INSERT that is a transaction of its own
unfoldable pub insert_request : TokenCreationRequest → Requests → Result (Unit {0}) × Requests
unfolding lookup
insert_request v w =
    let (bad, rest) = next_fault w.faults in
    if bad then (err broken, record w { faults = rest }) else elim (lookup v.request_id w.db) [
      | some _ ↦ (duplicate_key, record w { faults = rest })
      | none ↦ (ok tt, record { db = (v.request_id, v) ∷ w.db; faults = rest })
    ]

abbrev pub token_creation_repository : Store Requests
token_creation_repository = record { create = insert_request }
