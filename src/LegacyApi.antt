-- ===== src/LegacyApi.antt =====
-- The legacy API, in apps/api/internal: token creation in service/crypto (create2.go, signer.go) and
-- service/token/service.go, whose data types and packages are here, wallet login in logic/user and
-- candle queries in logic/kline. What is printed and logged is left out.
pub mod Create2
pub mod Kline
pub mod Events
pub mod Tokens
pub mod Redis
pub mod Signer
pub mod TokenService
pub mod Wallet
use meme_launchpad_backend.Common.{ℕ, String, Bool, Option, List}
use meme_launchpad_backend.Fallible.{Result}
use meme_launchpad_backend.Go.Strconv.{ℤ}

-- `VestingAllocation`, whose pointers may be nil
pub record VestingAllocation : Type 0 where
  pub amount : Option ℤ
  pub launch_time : Option ℤ
  pub duration : Option ℤ
  pub mode : ℕ

pub record CreateTokenParams : Type 0 where
  pub name : String
  pub symbol : String
  pub total_supply : ℕ
  pub sale_amount : ℕ
  pub virtual_bnb_reserve : ℕ
  pub virtual_token_reserve : ℕ
  pub launch_time : ℕ
  pub creation_fee : ℕ
  pub creator : ℕ
  pub timestamp : ℕ
  pub request_id : List ℕ
  pub nonce : ℕ
  pub initial_buy_percentage : ℕ
  pub margin_bnb : Option ℤ
  pub margin_time : ℕ
  pub vesting_allocations : List VestingAllocation

pub record VestingTuple : Type 0 where
  pub amount : ℤ
  pub launch_time : ℤ
  pub duration : ℤ
  pub mode : ℕ

pub record CreateTokenParamsTuple : Type 0 where
  pub name : String
  pub symbol : String
  pub total_supply : ℕ
  pub sale_amount : ℕ
  pub virtual_bnb_reserve : ℕ
  pub virtual_token_reserve : ℕ
  pub launch_time : ℕ
  pub creator : ℕ
  pub timestamp : ℕ
  pub request_id : List ℕ
  pub nonce : ℕ
  pub initial_buy_percentage : ℕ
  pub margin_bnb : ℤ
  pub margin_time : ℕ
  pub vesting_allocations : List VestingTuple

-- What the code calls of go-ethereum and for texts: Keccak256, `Address.Hex`, `HexToAddress`, the ABI's
-- packing of the salt's arguments (name, symbol, supply, owner, timestamp, nonce), of the constructor's
-- (name, symbol, supply, owner) and of the tuple, `HexToECDSA`, `PubkeyToAddress`, `Sign`, the address of
-- the key that `SigToPub` finds, `ToLower` and `EqualFold`.
pub record Packages (Key : Type 0) : Type 0 where
  pub keccak256 : List ℕ → List ℕ
  pub address_hex : ℕ → String
  pub hex_to_address : String → ℕ
  pub pack_salt : String → String → ℕ → ℕ → ℕ → ℕ → Result (List ℕ)
  pub pack_constructor : String → String → ℕ → ℕ → Result (List ℕ)
  pub pack_tuple : CreateTokenParamsTuple → Result (List ℕ)
  pub hex_to_ecdsa : String → Result Key
  pub key_address : Key → ℕ
  pub sign : List ℕ → Key → Result (List ℕ)
  pub sig_to_address : List ℕ → List ℕ → Result ℕ
  pub to_lower : String → String
  pub equal_fold : String → String → Bool
