-- ===== src/LegacyApi/Signer.antt =====
-- `Signer` of apps/api/internal/service/crypto/signer.go, without the encoding by a script, which
-- `SignCreateTokenParams` never asks for.
pub mod Verifies
use meme_launchpad_backend.Common.{
  ℕ, ◌+◌, ◌-◌, ◌/◌, ◌%◌, ◌^◌, String, Bool, false, Option, none, some, List, [], ◌∷◌, ◌++◌, map,
  length, ltb, ◌==◌, nat_eq, not, if◌then◌else◌,
}
use meme_launchpad_backend.Fallible.{Error, msg, wrap, Result, ok, err, wrapped, ◌>>=◌, ◌>>◌, guard}
use meme_launchpad_backend.Go.Strconv.{ℤ, pos}
use meme_launchpad_backend.Go.Strings.{◌<>◌, trim_0x}
use meme_launchpad_backend.Go.Hex.{encode_hex, decode_hex}
use meme_launchpad_backend.Go.Bytes.{fill_bytes, set_bytes, utf8, take, copied, update_at}
use meme_launchpad_backend.LegacyApi.{
  VestingAllocation, CreateTokenParams, VestingTuple, CreateTokenParamsTuple, Packages,
}

pub record Signer (Key : Type 0) : Type 0 where
  pub private_key : Key
  pub address : ℕ

-- a pointer to a number, or zero where it is nil
abbrev pub or_zero : Option ℤ → ℤ
or_zero none = pos 0
or_zero (some n) = n

unfoldable pub vesting_tuple : VestingAllocation → VestingTuple
vesting_tuple v = record {
  amount = or_zero v.amount;
  launch_time = or_zero v.launch_time;
  duration = or_zero v.duration;
  mode = v.mode;
}

-- a time above 10^10 is taken for milliseconds
unfoldable pub to_seconds : ℕ → ℕ
to_seconds t = if ltb (10 ^ 10) t then t / 1000 else t

unfoldable pub tuple_data : CreateTokenParams → CreateTokenParamsTuple
unfolding vesting_tuple to_seconds
tuple_data p = record {
  name = p.name;
  symbol = p.symbol;
  total_supply = p.total_supply;
  sale_amount = p.sale_amount;
  virtual_bnb_reserve = p.virtual_bnb_reserve;
  virtual_token_reserve = p.virtual_token_reserve;
  launch_time = to_seconds p.launch_time;
  creator = p.creator;
  timestamp = to_seconds p.timestamp;
  request_id = p.request_id;
  nonce = p.nonce;
  initial_buy_percentage = p.initial_buy_percentage;
  margin_bnb = or_zero p.margin_bnb;
  margin_time = p.margin_time;
  vesting_allocations = map vesting_tuple p.vesting_allocations;
}

-- the checks of the encoded data: its length, its outer offset and room for the tuple's first fields
unfoldable pub check_encoding : List ℕ → Result (Unit {0})
unfolding set_bytes
check_encoding bytes = do
  guard (not (ltb (length bytes) 32)) (msg "encoded data too short")
  guard (set_bytes 0 (take 32 bytes) % 2 ^ 64 == 32) (msg "invalid outer offset: expected 32")
  guard (not (ltb (length bytes) 96)) (msg "encoded data too short for tuple fields")

-- abi.encodePacked(data, CHAIN_ID, address(this))
unfoldable pub packed_data : List ℕ → ℕ → ℕ → List ℕ
unfolding fill_bytes
packed_data bytes chain_id contract_address =
    bytes ++ (fill_bytes 32 chain_id ++ fill_bytes 20 contract_address)

-- the recovery id of a signature as the contract wants it
abbrev pub raised : ℕ → ℕ
raised v = if ltb v 27 then (v + 27) % 256 else v

abbrev pub lowered : ℕ → ℕ
lowered v = if ltb v 27 then v else v - 27

unfoldable pub ethereum_signature : List ℕ → List ℕ
ethereum_signature signature = update_at 64 raised (copied 65 signature)

unfoldable pub hex_to_bytes32 : String → Result (List ℕ)
unfolding decode_hex trim_0x
hex_to_bytes32 s = elim (decode_hex (trim_0x s)) [
  | none ↦ err (msg "encoding/hex: invalid")
  | some bytes ↦ ok (copied 32 bytes)
]

unfoldable pub bytes32_to_hex : List ℕ → String
unfolding encode_hex
bytes32_to_hex bytes = "0x" <> encode_hex bytes

module _ {Key : Type 0} (lib : Packages Key) where
  unfoldable pub new_signer : String → Result (Signer Key)
  unfolding trim_0x
  new_signer private_key_hex = do
    private_key ← wrapped "invalid private key" (lib.hex_to_ecdsa (trim_0x private_key_hex))
    ok (record { private_key = private_key; address = lib.key_address private_key })

  -- the ABI's encoding of the tuple
  unfoldable pub encoded_data : CreateTokenParams → Result (List ℕ)
  unfolding tuple_data
  encoded_data p = wrapped "failed to encode params" (lib.pack_tuple (tuple_data p))

  -- the signature of the hash of bytes, from which the signer's address must be recovered
  unfoldable pub sign_packed : Signer Key → List ℕ → Result (List ℕ)
  unfolding ethereum_signature
  sign_packed s bytes = do
    let message_hash = lib.keccak256 bytes
    signature ← wrapped "failed to sign" (lib.sign message_hash s.private_key)
    recovered ←
        wrapped "failed to recover public key from signature"
          (lib.sig_to_address message_hash signature)
    guard (recovered == s.address) (msg "signature recovery failed")
    ok (ethereum_signature signature)

  unfoldable pub sign_create_token_params :
      Signer Key → CreateTokenParams → ℕ → ℕ → Result (List ℕ × List ℕ)
  unfolding encoded_data check_encoding packed_data sign_packed
  sign_create_token_params s p chain_id contract_address = do
    encoded ← encoded_data p
    check_encoding encoded
    signature ← sign_packed s (packed_data encoded chain_id contract_address)
    ok (encoded, signature)

  unfoldable pub generate_request_id : String → ℕ → ℕ → ℕ → List ℕ
  unfolding utf8 fill_bytes
  generate_request_id prefix creator timestamp nonce = copied 32 (
      lib.keccak256 (
        utf8 prefix ++ (fill_bytes 20 creator ++ (fill_bytes 32 timestamp ++ fill_bytes 32 nonce))))

  unfoldable pub verify_signature : List ℕ → List ℕ → ℕ → Bool
  verify_signature bytes signature expected_signer =
      if not (length signature == 65)
      then false
      else elim (lib.sig_to_address (lib.keccak256 bytes)
          (update_at 64 lowered (copied 65 signature))) [
            | err _ ↦ false
            | ok recovered ↦
                lib.equal_fold (lib.address_hex recovered) (lib.address_hex expected_signer)
          ]
