-- ===== src/LegacyApi/TokenService/Create.antt =====
-- `CreateToken`, `CalculateAddress` and `saveCreationRequest` of token/service.go.
use meme_launchpad_backend.Common.{
  ℕ, String, Option, none, some, List, map, ◌==◌, string_eq, if◌then◌else◌,
}
use meme_launchpad_backend.Fallible.{Error, msg, wrap, Result, ok, err, wrapped, ◌>>=◌}
use meme_launchpad_backend.Go.Strconv.{pos, int_string, to_unsigned}
use meme_launchpad_backend.Go.Strings.{◌<>◌}
use meme_launchpad_backend.Go.Hex.{encode_hex}
use meme_launchpad_backend.Postgres.Transaction.{World}
use meme_launchpad_backend.LegacyApi.{VestingAllocation, CreateTokenParams, Packages}
use meme_launchpad_backend.LegacyApi.Create2.{
  Create2Calculator, predict_address, find_vanity_address,
}
use meme_launchpad_backend.LegacyApi.Signer.{
  or_zero, sign_create_token_params, generate_request_id, bytes32_to_hex,
}
use meme_launchpad_backend.LegacyApi.TokenService.{
  default_total_supply, default_sale_amount, default_virtual_bnb_reserve,
  default_virtual_token_reserve, TokenModel, nil_model, nil_database, connected, TokenService,
  VestingAllocationInput, CreateTokenRequest, CreateTokenResponse, CreationRow, Tables, run,
  get_next_nonce, no_model, no_database, vesting_json, insert_creation,
}

-- the conversion of an allocation of the request
unfoldable pub vesting_allocation : VestingAllocationInput → VestingAllocation
vesting_allocation v = record {
  amount = some v.amount;
  launch_time = some v.launch_time;
  duration = some v.duration;
  mode = to_unsigned 8 v.mode;
}

-- `CalculateAddressRequest` and its response
pub record CalculateAddressRequest : Type 0 where
  pub name : String
  pub symbol : String
  pub digits : String

pub record CalculateAddressResponse : Type 0 where
  pub predicted_address : String
  pub salt : String
  pub nonce : ℕ

abbrev pub nil_dereference : Error
nil_dereference = msg "runtime error: invalid memory address or nil pointer dereference"

-- the nonce that a search has found, or the given one
abbrev pub picked : ℕ → Option (ℕ × ℕ) → ℕ
picked given none = given
picked given (some (n, _)) = n

module _ {Key : Type 0} (lib : Packages Key) (s : TokenService Key) where
  -- the nonce of the search, if one is wanted and found, or else the given one
  unfoldable pub choose_nonce : Create2Calculator → String → String → ℕ → String → ℕ → ℕ → ℕ
  unfolding find_vanity_address
  choose_nonce calc name symbol timestamp digits max_attempts given =
      if digits == ""
      then given
      else picked given (
          find_vanity_address lib calc name symbol default_total_supply s.core_contract timestamp
            digits max_attempts)

  -- the nonce, the salt and the predicted address; a nil calculator is a panic
  unfoldable pub place : String → String → ℕ → String → ℕ → ℕ → Result (ℕ × List ℕ × ℕ)
  unfolding choose_nonce predict_address
  place name symbol timestamp digits max_attempts given = elim s.create2_calc [
    | none ↦ err nil_dereference
    | some calc ↦
        let nonce = choose_nonce calc name symbol timestamp digits max_attempts given in
        let (salt, predicted) =
          predict_address lib calc name symbol default_total_supply s.core_contract timestamp
            nonce in
        ok (nonce, salt, predicted)
  ]

  unfoldable pub calculate : ℕ → CalculateAddressRequest → Result CalculateAddressResponse
  unfolding place bytes32_to_hex
  calculate timestamp req = do
    placed ← place req.name req.symbol timestamp req.digits 100000 0
    let (nonce, salt, predicted) = placed
    ok (record {
      predicted_address = lib.address_hex predicted;
      salt = bytes32_to_hex salt;
      nonce = nonce;
    })

  unfoldable pub creation_params : CreateTokenRequest → ℕ → ℕ → CreateTokenParams
  unfolding vesting_allocation generate_request_id
  creation_params req timestamp nonce =
      let creator = lib.hex_to_address req.creator in
      record {
        name = req.name;
        symbol = req.symbol;
        total_supply = default_total_supply;
        sale_amount = default_sale_amount;
        virtual_bnb_reserve = default_virtual_bnb_reserve;
        virtual_token_reserve = default_virtual_token_reserve;
        launch_time = to_unsigned 64 req.launch_time;
        creation_fee = 0;
        creator = creator;
        timestamp = timestamp;
        request_id = generate_request_id lib "mainnet_" creator timestamp nonce;
        nonce = nonce;
        initial_buy_percentage = to_unsigned 64 req.initial_buy_percentage;
        margin_bnb = some (or_zero req.margin_bnb);
        margin_time = to_unsigned 64 req.margin_time;
        vesting_allocations = map vesting_allocation req.vesting_allocations;
      }

  -- the arguments of the INSERT
  unfoldable pub creation_row :
      CreateTokenRequest → CreateTokenParams → List ℕ → List ℕ → List ℕ → ℕ → CreationRow
  unfolding bytes32_to_hex int_string encode_hex vesting_json
  creation_row req p encoded signature salt predicted = record {
    request_id = bytes32_to_hex p.request_id;
    creator_address = lib.to_lower req.creator;
    name = req.name;
    symbol = req.symbol;
    description = req.description;
    logo = req.logo;
    banner = req.banner;
    total_supply = int_string (pos p.total_supply);
    sale_amount = int_string (pos p.sale_amount);
    virtual_bnb_reserve = int_string (pos p.virtual_bnb_reserve);
    virtual_token_reserve = int_string (pos p.virtual_token_reserve);
    launch_mode = req.launch_mode;
    launch_time = req.launch_time;
    creation_fee = int_string (pos p.creation_fee);
    nonce = p.nonce;
    salt = bytes32_to_hex salt;
    predicted_address = lib.to_lower (lib.address_hex predicted);
    signature = "0x" <> encode_hex signature;
    encoded_data = "0x" <> encode_hex encoded;
    initial_buy_percentage = req.initial_buy_percentage;
    margin_bnb = int_string (or_zero p.margin_bnb);
    margin_time = req.margin_time;
    vesting_allocations = vesting_json req.vesting_allocations;
    website = req.website;
    twitter = req.twitter;
    telegram = req.telegram;
    discord = req.discord;
    whitepaper = req.whitepaper;
    contact_email = req.contact_email;
    contact_tg = req.contact_tg;
    tags = req.tags;
    status = 0;
    timestamp = p.timestamp;
  }

  unfoldable pub save_creation_request :
      TokenModel → CreationRow → World Tables → Result (Unit {0}) × World Tables
  unfolding run insert_creation
  save_creation_request nil_model row w = (err no_model, w)
  save_creation_request nil_database row w = (err no_database, w)
  save_creation_request connected row w = run (insert_creation row) w

  -- the data and the signature
  unfoldable pub signed_by : CreateTokenParams → Result (List ℕ × List ℕ)
  unfolding sign_create_token_params
  signed_by p = elim s.signer [
    | none ↦ err (msg "signer not initialized")
    | some signer ↦
        wrapped "failed to sign params"
          (sign_create_token_params lib signer p s.chain_id s.core_contract)
  ]

  -- what is computed between the nonce and the INSERT
  unfoldable pub prepare : ℕ → CreateTokenRequest → ℕ → Result (CreateTokenResponse × CreationRow)
  unfolding place creation_params signed_by creation_row bytes32_to_hex encode_hex
  prepare timestamp req sequence = do
    placed ← place req.name req.symbol timestamp req.digits 1000000 sequence
    let (nonce, salt, predicted) = placed
    let p = creation_params req timestamp nonce
    signed ← signed_by p
    let (encoded, signature) = signed
    ok (
      record {
        request_id = bytes32_to_hex p.request_id;
        create2_salt = bytes32_to_hex salt;
        create_arg = "0x" <> encode_hex encoded;
        nonce = nonce;
        predicted_address = lib.address_hex predicted;
        signature = "0x" <> encode_hex signature;
        timestamp = timestamp;
      },
      creation_row req p encoded signature salt predicted,
    )

  unfoldable pub create_token :
      ℕ → CreateTokenRequest → World Tables → Result CreateTokenResponse × World Tables
  unfolding get_next_nonce prepare save_creation_request
  create_token timestamp req w =
      let (next, w1) = get_next_nonce s.token_model s.chain_id w in
      elim next [
        | err e ↦ (err (wrap "failed to get nonce" e), w1)
        | ok sequence ↦ elim (prepare timestamp req sequence) [
          | err e ↦ (err e, w1)
          | ok (response, row) ↦
              let (saved, w2) = save_creation_request s.token_model row w1 in
              elim saved [
                | err e ↦ (err (wrap "failed to save creation request" e), w2)
                | ok _ ↦ (ok response, w2)
              ]
        ]
      ]
