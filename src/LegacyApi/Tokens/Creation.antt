-- ===== src/LegacyApi/Tokens/Creation.antt =====
-- `CreateToken` and `CalculateAddress` of apps/api/internal/logic/token/logic.go, over the token service.
-- A request has the fields that they read, and its margin. `basis_points` is int(x * 10000) of a float64.
use meme_launchpad_backend.Common.{
  ℕ, ◌≡◌, refl, String, ◌||◌, Option, none, some, List, [], ◌∷◌, ◌==◌, nat_eq, string_eq,
  Bool-cases, Option-cases, inl, inr, if◌then◌else◌,
}
use meme_launchpad_backend.Fallible.{Error, msg, wrap, error_text, Result, ok, err, Result-cases}
use meme_launchpad_backend.Go.Strconv.{ℤ, pos, int_string}
use meme_launchpad_backend.Go.Strings.{◌<>◌}
use meme_launchpad_backend.Postgres.Table.{lookup}
use meme_launchpad_backend.Postgres.Transaction.{World}
use meme_launchpad_backend.LegacyApi.{Packages}
use meme_launchpad_backend.LegacyApi.Wallet.{failure, success}
use meme_launchpad_backend.LegacyApi.TokenService
use meme_launchpad_backend.LegacyApi.TokenService.{CreateTokenResponse, CreationRow, Tables}
use meme_launchpad_backend.LegacyApi.TokenService.Create
use meme_launchpad_backend.LegacyApi.TokenService.Create.{CalculateAddressRequest, calculate}
use meme_launchpad_backend.LegacyApi.TokenService.Saved.{create_token-Outcome}
use meme_launchpad_backend.LegacyApi.Tokens.{Answer, panicked, answered}

pub record CreateTokenRequest (Float : Type 0) : Type 0 where
  pub name : String
  pub symbol : String
  pub description : String
  pub launch_mode : ℤ
  pub launch_time : ℤ
  pub logo : String
  pub banner : String
  pub website : String
  pub twitter : String
  pub telegram : String
  pub discord : String
  pub whitepaper : String
  pub tags : List String
  pub pre_buy_percent : Float
  pub margin_bnb : Float
  pub margin_time : ℤ
  pub contract_tg : String
  pub contract_email : String
  pub digits : String

-- The reply to what the service returns after some text. Only a panic is an error with the text of one.
abbrev pub answer_of : {A : Type 0} → String → Result A → Answer A
answer_of text (ok a) = answered (success a)
answer_of text (err (msg s)) =
    if s == error_text Create.nil_dereference then panicked else answered (failure 500 (text <> s))
answer_of text (err (wrap s e)) = answered (failure 500 (text <> error_text (wrap s e)))

module _ {Float Key : Type 0} (basis_points : Float → ℤ) (lib : Packages Key) where
  -- what the service is asked for; the margin of the request is not passed on
  unfoldable pub service_request :
      String → CreateTokenRequest Float → TokenService.CreateTokenRequest
  service_request address req = record {
    name = req.name;
    symbol = req.symbol;
    description = req.description;
    logo = req.logo;
    banner = req.banner;
    creator = address;
    launch_mode = req.launch_mode;
    launch_time = req.launch_time;
    initial_buy_percentage = basis_points req.pre_buy_percent;
    margin_bnb = none;
    margin_time = pos 0;
    vesting_allocations = [];
    website = req.website;
    twitter = req.twitter;
    telegram = req.telegram;
    discord = req.discord;
    whitepaper = req.whitepaper;
    contact_email = req.contract_email;
    contact_tg = req.contract_tg;
    tags = req.tags;
    digits = req.digits;
  }

  -- for the user and the address of the request's context
  unfoldable pub create_token :
      Option (TokenService.TokenService Key)
      → ℕ
      → ℕ
      → String
      → CreateTokenRequest Float
      → World Tables
      → Answer CreateTokenResponse × World Tables
  unfolding Create.create_token service_request
  create_token service timestamp user address req w =
      if user == 0 || address == ""
      then (answered (failure 401 "unauthorized"), w)
      else elim service [
        | none ↦ (answered (failure 500 "service not available"), w)
        | some s ↦
            let (r, w') = Create.create_token lib s timestamp (service_request address req) w in
            (answer_of "failed to create token: " r, w')
      ]

  -- the predicted address and the salt
  unfoldable pub calculate_address :
      Option (TokenService.TokenService Key)
      → ℕ
      → CalculateAddressRequest
      → Answer (String × String)
  unfolding calculate
  calculate_address none timestamp req = answered (failure 500 "service not available")
  calculate_address (some s) timestamp req =
      answer_of "failed to calculate address: " (elim (calculate lib s timestamp req) [
        | err e ↦ err e
        | ok r ↦ ok (r.predicted_address, r.salt)
      ])

  -- the row that a success adds for a caller
  pub record IsCreated (address : String) (req : CreateTokenRequest Float) (r : CreateTokenResponse)
      (w w' : World Tables) : Type 0 where
    pub row : CreationRow
    pub unused : lookup r.request_id w.db.token_creation_requests ≡ none
    pub grown : w'.db.token_creation_requests ≡ (r.request_id, row) ∷ w.db.token_creation_requests
    pub creator : row.creator_address ≡ lib.to_lower address
    pub signed : row.signature ≡ r.signature
    pub bought : row.initial_buy_percentage ≡ basis_points req.pre_buy_percent
    pub margin : row.margin_bnb ≡ int_string (pos 0)
    pub locked : row.margin_time ≡ pos 0

  abbrev pub Creates :
      String
      → CreateTokenRequest Float
      → Answer CreateTokenResponse
      → World Tables
      → World Tables
      → Type 0
  Creates address req (answered (success r)) w w' = IsCreated address req r w w'
  Creates address req (answered (failure _ _)) w w' =
      w'.db.token_creation_requests ≡ w.db.token_creation_requests
  Creates address req panicked w w' = w'.db.token_creation_requests ≡ w.db.token_creation_requests

  -- any reply to an error keeps the requests
  answer_of-Creates :
      (address : String) (req : CreateTokenRequest Float) (e : Error) (w w' : World Tables)
      → w'.db.token_creation_requests ≡ w.db.token_creation_requests
      → Creates address req (answer_of "failed to create token: " (err e)) w w'
  answer_of-Creates address req (wrap s e) w w' same = same
  answer_of-Creates address req (msg s) w w' same =
      elim (Bool-cases (s == error_text Create.nil_dereference)) [
        | inl panic ↦ rw panic same
        | inr other ↦ rw other same
      ]

  created :
      (s : TokenService.TokenService Key) (timestamp : ℕ) (address : String)
      (req : CreateTokenRequest Float) (w : World Tables)
      → let (r, w') = Create.create_token lib s timestamp (service_request address req) w in
        Creates address req (answer_of "failed to create token: " r) w w'
  unfolding service_request
  created s timestamp address req w =
      let asked = service_request address req in
      let out = create_token-Outcome lib s timestamp asked w in
      let w' = (Create.create_token lib s timestamp asked w).1 in
      elim (Result-cases (Create.create_token lib s timestamp asked w).0) [
        | inl (r, good) ↦
            let (unused, row, same, grown) = rw good at out in
            rw good (record {
              row = row;
              unused = unused;
              grown = grown;
              creator = same.creator;
              signed = same.signed;
              bought = same.bought;
              margin = same.margin;
              locked = same.locked;
            })
        | inr (e, bad) ↦ rw bad (answer_of-Creates address req e w w' (rw bad at out))
      ]

  -- A success of `CreateToken` has added one row to token_creation_requests, under an unused request id,
  -- whose creator is the address of the caller in lower case, with the reply's signature, the purchase of
  -- the request in basis points, and a margin and a margin time of 0, whatever margin the request asked
  -- for. Any other reply, and a panic, leave that table as it was.
  pub create_token-Creates :
      (service : Option (TokenService.TokenService Key)) (timestamp user : ℕ) (address : String)
      (req : CreateTokenRequest Float) (w : World Tables)
      → let o = create_token service timestamp user address req w in Creates address req o.0 w o.1
  unfolding create_token service_request
  create_token-Creates service timestamp user address req w =
      elim (Bool-cases (user == 0 || address == "")) [
        | inl unknown ↦ rw unknown refl
        | inr known ↦ elim (Option-cases service) [
          | inl missing ↦ rw (known, missing) refl
          | inr (s, there) ↦ rw (known, there) (created s timestamp address req w)
        ]
      ]
