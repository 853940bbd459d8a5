-- ===== src/Tests/Launch.antt =====
-- The theorems about token creation in the legacy API at concrete inputs.
use meme_launchpad_backend.Common.{
  ℕ, ◌*◌, ◌≡◌, refl, true, false, none, some, List, [], ◌∷◌, ◌++◌, arith, ◌==◌, nat_eq, string_eq,
  if◌then◌else◌, ==_refl,
}
use meme_launchpad_backend.Fallible.{ok, ok-Yields}
use meme_launchpad_backend.Go.Strconv.{ℤ, pos}
use meme_launchpad_backend.Postgres.Table.{lookup}
use meme_launchpad_backend.Postgres.Transaction.{World}
use meme_launchpad_backend.LegacyApi.{Packages, CreateTokenParams}
use meme_launchpad_backend.LegacyApi.Create2.{Create2Calculator, calculate_salt, candidate}
use meme_launchpad_backend.LegacyApi.Signer.{
  Signer, check_encoding, packed_data, ethereum_signature, sign_create_token_params,
  verify_signature,
}
use meme_launchpad_backend.LegacyApi.Signer.Verifies.{
  IsRecoverable, AreDocumented, sign_create_token_params-verify_signature,
}
use meme_launchpad_backend.LegacyApi.TokenService.{
  default_total_supply, connected, TokenService, VestingAllocationInput, CreateTokenRequest, Tables,
  get_next_nonce,
}
use meme_launchpad_backend.LegacyApi.TokenService.Create.{creation_params, place}
use meme_launchpad_backend.LegacyApi.TokenService.Nonces.{nonce_reused}
use meme_launchpad_backend.LegacyApi.Tokens.Creation
use meme_launchpad_backend.LegacyApi.Tokens.Creation.{Creates, create_token-Creates}
use meme_launchpad_backend.LegacyApi.TokenService.Chosen.{IsChosen, place-IsChosen}

abbrev eight : List ℕ
eight = 0 ∷ 0 ∷ 0 ∷ 0 ∷ 0 ∷ 0 ∷ 0 ∷ 0 ∷ []

abbrev pub sixty_four : List ℕ
sixty_four = eight ++ (eight ++ (eight ++ (eight ++ (eight ++ (eight ++ (eight ++ eight))))))

-- 96 bytes, of which the first word is 32
abbrev tuple_bytes : List ℕ
tuple_bytes = eight ++ (eight ++ (eight ++ ((0 ∷ 0 ∷ 0 ∷ 0 ∷ 0 ∷ 0 ∷ 0 ∷ 32 ∷ []) ++ sixty_four)))

abbrev pub packages : Packages ℕ
packages = record {
  keccak256 = λ bytes. 7 ∷ [];
  address_hex = λ a. "0xAB";
  hex_to_address = λ s. 171;
  pack_salt = λ name symbol supply owner timestamp nonce. ok (nonce ∷ []);
  pack_constructor = λ name symbol supply owner. ok (3 ∷ []);
  pack_tuple = λ t. ok tuple_bytes;
  hex_to_ecdsa = λ s. ok 5;
  key_address = λ k. 9;
  sign = λ hash key. ok (sixty_four ++ (1 ∷ []));
  sig_to_address = λ hash signature. ok 9;
  to_lower = λ s. if s == "0xAB" then "0xab" else s;
  equal_fold = λ a b. a == b;
}

abbrev signer : Signer ℕ
signer = record { private_key = 5; address = 9 }

abbrev calculator : Create2Calculator
calculator = record { factory_address = 172; token_bytecode = 96 ∷ [] }

abbrev service : TokenService ℕ
service = record {
  token_model = connected;
  signer = some signer;
  create2_calc = some calculator;
  core_contract = 171;
  factory_contract = 172;
  rpc_url = "";
  chain_id = 97;
}

abbrev allocation : VestingAllocationInput
allocation = record { amount = pos 5000; launch_time = pos 0; duration = pos 86400; mode = pos 1 }

abbrev request : CreateTokenRequest
request = record {
  name = "Meme";
  symbol = "MEME";
  description = "";
  logo = "";
  banner = "";
  creator = "0xAB";
  launch_mode = pos 1;
  launch_time = pos 1700000000000;
  initial_buy_percentage = pos 0;
  margin_bnb = none;
  margin_time = pos 0;
  vesting_allocations = allocation ∷ [];
  website = "";
  twitter = "";
  telegram = "";
  discord = "";
  whitepaper = "";
  contact_email = "";
  contact_tg = "";
  tags = [];
  digits = "ab";
}

abbrev tables : Tables
tables = record { nonce_sequence = (97, 4) ∷ []; token_creation_requests = [] }

abbrev calm : World Tables
calm = record { db = tables; faults = [] }

-- a database that refuses the first statement
abbrev flaky : World Tables
flaky = record { db = tables; faults = true ∷ false ∷ false ∷ [] }

nonce_reused_example :
    ((get_next_nonce connected 97 flaky).0 ≡ ok 4)
    × ((get_next_nonce connected 97 flaky).1.db ≡ tables)
unfolding lookup
nonce_reused_example = nonce_reused 97 flaky 4 false [] refl refl

-- a request of the handler, with whole percents in place of floats
abbrev form : Creation.CreateTokenRequest ℕ
form = record {
  name = "Meme";
  symbol = "MEME";
  description = "";
  launch_mode = pos 1;
  launch_time = pos 1700000000000;
  logo = "";
  banner = "";
  website = "";
  twitter = "";
  telegram = "";
  discord = "";
  whitepaper = "";
  tags = [];
  pre_buy_percent = 5;
  margin_bnb = 3;
  margin_time = pos 86400;
  contract_tg = "";
  contract_email = "";
  digits = "ab";
}

abbrev points : ℕ → ℤ
points percent = pos (percent * 100)

create_token-Creates_example :
    let o = Creation.create_token points packages (some service) 1700000000 7 "0xAB" form calm in
    Creates points packages "0xAB" form o.0 calm o.1
create_token-Creates_example =
    create_token-Creates points packages (some service) 1700000000 7 "0xAB" form calm

documented : AreDocumented packages signer
documented = record {
  signs = λ hash.
      ok-Yields IsRecoverable
        (record { rs = sixty_four; v = 1; ends = refl; long = refl; id = omega arith });
  folds = λ text. ==_refl text;
}

abbrev parameters : CreateTokenParams
parameters = creation_params packages service request 1700000000 5

signs :
    sign_create_token_params packages signer parameters 97 171
    ≡ ok (tuple_bytes, sixty_four ++ (28 ∷ []))
unfolding sign_create_token_params check_encoding ethereum_signature
signs = refl

sign_create_token_params-verify_signature_example :
    verify_signature packages (packed_data tuple_bytes 97 171) (sixty_four ++ (28 ∷ [])) 9 ≡ true
sign_create_token_params-verify_signature_example =
    sign_create_token_params-verify_signature packages signer documented parameters 97 171
      tuple_bytes (sixty_four ++ (28 ∷ [])) signs

-- a hash is one byte here
abbrev salt : List ℕ
salt = 7 ∷ 0 ∷ 0 ∷ 0 ∷ 0 ∷ 0 ∷ 0 ∷ 0 ∷ (eight ++ (eight ++ eight))

-- the salt of nonce 0 and the address that has it
places : place packages service "Meme" "MEME" 1700000000 "ab" 10 4 ≡ ok (0, salt, 0)
unfolding place
places = refl

place-IsChosen_example :
    IsChosen packages service calculator "Meme" "MEME" "ab" 1700000000 10 4 0
    × (salt ≡ calculate_salt packages "Meme" "MEME" default_total_supply 171 1700000000 0)
    × (0 ≡ candidate packages calculator "Meme" "MEME" default_total_supply 171 1700000000 "ab" 0)
place-IsChosen_example =
    place-IsChosen packages service calculator "Meme" "MEME" "ab" 1700000000 10 4 refl refl 0 salt 0
      places
