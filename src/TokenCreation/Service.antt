-- ===== src/TokenCreation/Service.antt =====
-- `New` and `Create` of tokencreation/service.go.
use meme_launchpad_backend.Common.{
  ℕ, zero, suc, ◌+◌, ◌%◌, String, not, ◌||◌, none, some, List, [], ◌∷◌, ◌++◌, length, ltb, ◌==◌,
  nat_eq, string_eq, if◌then◌else◌,
}
use meme_launchpad_backend.Fallible.{Error, msg, wrap, Result, ok, err, wrapped, ◌>>=◌, ◌>>◌, guard}
use meme_launchpad_backend.Go.Strings.{◌<>◌, trim_space, trim_0x}
use meme_launchpad_backend.Go.Hex.{encode_hex, decode_hex}
use meme_launchpad_backend.Go.Bytes.{fill_bytes, set_bytes, utf8, drop}
use meme_launchpad_backend.TokenCreation.{
  total_supply, sale_amount, virtual_bnb_reserve, virtual_token_reserve, max_initial_buy_percentage,
  Config, Request, Response, Params, Packages, TokenCreationRequest, Store,
}

abbrev pub not_configured : Error
not_configured = msg "token creation is not fully configured"

-- `New`; the store is never nil here
unfoldable pub new_service : {Key : Type 0} → Config Key → Result (Config Key)
new_service cfg = elim cfg.signer [
  | none ↦ err not_configured
  | some _ ↦
      if ltb cfg.chain_id 1
        || (cfg.core == 0 || (cfg.factory == 0 || length cfg.token_creation_bytecode == 0))
      then err not_configured
      else ok cfg
]

-- `len` counts bytes
unfoldable pub validate_request : Request → Result (Unit {0})
unfolding trim_space utf8
validate_request r = do
  guard (not (trim_space r.name == "" || (trim_space r.symbol == "" || r.creator == 0)))
      (msg "name, symbol, and creator are required")
  guard (not (ltb 100 (length (utf8 r.name)) || ltb 50 (length (utf8 r.symbol))))
      (msg "name must be at most 100 characters and symbol at most 50 characters")
  guard (not (ltb max_initial_buy_percentage r.initial_buy_percentage))
      (msg "initialBuyPercentage must be from 0 to 9990")

unfoldable pub uint256_bytes : ℕ → List ℕ
unfolding fill_bytes
uint256_bytes n = fill_bytes 32 n

unfoldable pub address_bytes : ℕ → List ℕ
unfolding fill_bytes
address_bytes a = fill_bytes 20 a

unfoldable pub params : Request → ℕ → List ℕ → ℕ → Params
params r timestamp id nonce = record {
  name = r.name;
  symbol = r.symbol;
  total_supply = total_supply;
  sale_amount = sale_amount;
  virtual_bnb_reserve = virtual_bnb_reserve;
  virtual_token_reserve = virtual_token_reserve;
  launch_time = r.launch_time;
  creator = r.creator;
  timestamp = timestamp;
  request_id = id;
  nonce = nonce;
  initial_buy_percentage = r.initial_buy_percentage;
  margin_bnb = 0;
  margin_time = 0;
  vesting_allocations = [];
}

-- `signature[64] += 27` on a byte; an index out of range is a panic
unfoldable pub raise_byte : ℕ → List ℕ → Result (List ℕ)
raise_byte i [] = err (msg "runtime error: index out of range")
raise_byte zero (b ∷ bytes) = ok ((b + 27) % 256 ∷ bytes)
raise_byte (suc i) (b ∷ bytes) = do ok (b ∷ (← raise_byte i bytes))

-- `rand.Read` of eight bytes as a number
unfoldable pub random_uint64 : Result (List ℕ) → Result ℕ
unfolding set_bytes
random_uint64 read = do ok (set_bytes 0 (← read))

unfoldable pub parse_bytecode : String → Result (List ℕ)
unfolding decode_hex trim_0x
parse_bytecode value =
    let bad = err (msg "TOKEN_CREATION_BYTECODE must be non-empty hexadecimal bytecode") in
    elim (decode_hex (trim_0x value)) [ some (b ∷ bytes) ↦ ok (b ∷ bytes) | _ ↦ bad ]

module _ {Key : Type 0} (lib : Packages Key) where
  abbrev pub hash_hex : List ℕ → String
  hash_hex h = "0x" <> encode_hex h

  unfoldable pub request_hash : ℕ → ℕ → ℕ → List ℕ
  unfolding uint256_bytes address_bytes utf8
  request_hash creator timestamp nonce = lib.keccak256 (
      utf8 "meme-launchpad:"
      ++ (address_bytes creator ++ (uint256_bytes timestamp ++ uint256_bytes nonce)))

  unfoldable pub calculate_salt : String → String → ℕ → ℕ → ℕ → List ℕ
  unfolding uint256_bytes address_bytes utf8
  calculate_salt name symbol core timestamp nonce = lib.keccak256 (
      utf8 name
      ++ (utf8 symbol
          ++ (uint256_bytes total_supply
              ++ (address_bytes core ++ (uint256_bytes timestamp ++ uint256_bytes nonce)))))

  unfoldable pub calculate_address : ℕ → List ℕ → List ℕ → String → String → ℕ → Result ℕ
  unfolding address_bytes set_bytes
  calculate_address factory bytecode salt name symbol core = do
    arguments ←
        wrapped "ABI encode token constructor" (lib.pack_constructor name symbol total_supply core)
    ok (
        set_bytes 0 (
          drop 12 (
            lib.keccak256
              (255 ∷ (address_bytes factory ++ (salt ++ lib.keccak256 (bytecode ++ arguments)))))))

  -- what the contract recovers the signer from
  unfoldable pub digest : Config Key → List ℕ → List ℕ
  unfolding uint256_bytes address_bytes
  digest cfg call_data =
      lib.keccak256 (call_data ++ (uint256_bytes cfg.chain_id ++ address_bytes cfg.core))

  unfoldable pub row : Request → Response → TokenCreationRequest
  row request r = record {
    request_id = r.request_id;
    creator_address = lib.address_hex request.creator;
    name = request.name;
    symbol = request.symbol;
    call_data = r.call_data;
    signature = r.signature;
    salt = r.salt;
    predicted_address = r.predicted_address;
    nonce = r.nonce;
    timestamp = r.timestamp;
  }

  module _ (cfg : Config Key) where
    -- a nil key is refused by `New`; `Sign` would panic on it
    unfoldable pub sign_digest : List ℕ → Result (List ℕ)
    unfolding digest raise_byte
    sign_digest call_data = elim cfg.signer [
      | none ↦ err (msg "runtime error: nil pointer")
      | some key ↦ do
        signature ← wrapped "sign create-token parameters" (lib.sign (digest cfg call_data) key)
        raise_byte 64 signature
    ]

    -- `Create` up to the store, with the reading of the clock and of the random source
    unfoldable pub prepare : ℕ → Result (List ℕ) → Request → Result Response
    unfolding validate_request random_uint64 request_hash params calculate_salt calculate_address
        sign_digest encode_hex
    prepare timestamp random request = do
      validate_request request
      nonce ← wrapped "generate nonce" (random_uint64 random)
      let id = request_hash request.creator timestamp nonce
      call_data ←
          wrapped "ABI encode create-token parameters"
            (lib.pack_params (params request timestamp id nonce))
      let salt = calculate_salt request.name request.symbol cfg.core timestamp nonce
      predicted ←
          calculate_address cfg.factory cfg.token_creation_bytecode salt request.name request.symbol
            cfg.core
      signature ← sign_digest call_data
      ok (record {
        call_data = "0x" <> encode_hex call_data;
        signature = "0x" <> encode_hex signature;
        request_id = hash_hex id;
        salt = hash_hex salt;
        predicted_address = lib.address_hex predicted;
        nonce = nonce;
        timestamp = timestamp;
      })

    module _ {S : Type 0} (store : Store S) where
      unfoldable pub create : ℕ → Result (List ℕ) → Request → S → Result Response × S
      unfolding prepare row
      create timestamp random request s = elim (prepare timestamp random request) [
        | err e ↦ (err e, s)
        | ok response ↦
            let (r, s') = store.create (row request response) s in
            elim r [
              | err e ↦ (err (wrap "persist token creation intent" e), s')
              | ok _ ↦ (ok response, s')
            ]
      ]
