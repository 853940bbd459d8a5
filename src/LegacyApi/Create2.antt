-- ===== src/LegacyApi/Create2.antt =====
-- `Create2Calculator` of apps/api/internal/service/crypto/create2.go.
pub mod Vanity
use meme_launchpad_backend.Common.{
  ℕ, zero, suc, ◌+◌, String, Bool, true, false, Option, none, some, List, [], ◌∷◌, ◌++◌,
}
use meme_launchpad_backend.Fallible.{Error, msg, wrap, Result, ok, err}
use meme_launchpad_backend.Go.Strings.{trim_0x, has_suffix}
use meme_launchpad_backend.Go.Hex.{decode_hex}
use meme_launchpad_backend.Go.Bytes.{fill_bytes, set_bytes, copied, drop}
use meme_launchpad_backend.LegacyApi.{Packages}

pub record Create2Calculator : Type 0 where
  pub factory_address : ℕ
  pub token_bytecode : List ℕ

module _ {Key : Type 0} (lib : Packages Key) where
  unfoldable pub new_create2_calculator : String → String → Result Create2Calculator
  unfolding decode_hex trim_0x
  new_create2_calculator factory_address token_bytecode_hex =
      elim (decode_hex (trim_0x token_bytecode_hex)) [
        | none ↦ err (wrap "invalid bytecode" (msg "encoding/hex: invalid"))
        | some bytecode ↦ ok (record {
          factory_address = lib.hex_to_address factory_address;
          token_bytecode = bytecode;
        })
      ]

  -- 32 zeros when the packing fails
  unfoldable pub calculate_salt : String → String → ℕ → ℕ → ℕ → ℕ → List ℕ
  calculate_salt name symbol total_supply owner timestamp nonce =
      elim (lib.pack_salt name symbol total_supply owner timestamp nonce) [
        | err _ ↦ copied 32 []
        | ok packed ↦ copied 32 (lib.keccak256 packed)
      ]

  -- nil when the packing fails
  unfoldable pub encode_constructor_args : String → String → ℕ → ℕ → List ℕ
  encode_constructor_args name symbol total_supply owner =
      elim (lib.pack_constructor name symbol total_supply owner) [ err _ ↦ [] | ok packed ↦ packed ]

  module _ (c : Create2Calculator) where
    unfoldable pub calculate_address : List ℕ → String → String → ℕ → ℕ → ℕ
    unfolding encode_constructor_args fill_bytes set_bytes
    calculate_address salt name symbol total_supply owner =
        let initcode = c.token_bytecode ++ encode_constructor_args name symbol total_supply owner in
        set_bytes 0 (
          drop 12 (
            lib.keccak256
              (255 ∷ (fill_bytes 20 c.factory_address ++ (salt ++ lib.keccak256 initcode)))))

    unfoldable pub predict_address : String → String → ℕ → ℕ → ℕ → ℕ → List ℕ × ℕ
    unfolding calculate_salt calculate_address
    predict_address name symbol total_supply owner timestamp nonce =
        let salt = calculate_salt name symbol total_supply owner timestamp nonce in
        (salt, calculate_address salt name symbol total_supply owner)

    module _ (name symbol : String) (total_supply owner timestamp : ℕ)
        (target_suffix : String) where
      -- the address of a nonce, and whether it ends as wanted
      abbrev pub candidate : ℕ → ℕ
      candidate nonce =
          calculate_address (calculate_salt name symbol total_supply owner timestamp nonce) name
            symbol total_supply owner

      abbrev pub matches : ℕ → Bool
      matches nonce =
          has_suffix (lib.to_lower (lib.address_hex (candidate nonce))) (lib.to_lower target_suffix)

      -- the loop from a nonce on, with the attempts that are left
      unfoldable pub find_from : ℕ → ℕ → Option (ℕ × ℕ)
      unfolding has_suffix calculate_salt calculate_address
      find_from zero nonce = none
      find_from (suc attempts) nonce = elim (matches nonce) [
        | true ↦ some (nonce, candidate nonce)
        | false ↦ find_from attempts (suc nonce)
      ]

      -- `FindVanityAddress`; `none` when nothing was found
      unfoldable pub find_vanity_address : ℕ → Option (ℕ × ℕ)
      unfolding find_from
      find_vanity_address max_attempts = find_from max_attempts 0
