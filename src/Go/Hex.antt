-- ===== src/Go/Hex.antt =====
-- hex.DecodeString and hex.EncodeToString, on bytes as numbers below 256.
use Prim.Native.Char.{Char, code}
use meme_launchpad_backend.Common.{
  ℕ, zero, suc, ◌+◌, ◌-◌, ◌*◌, ◌/◌, ◌%◌, ◌<◌, ◌≡◌, refl, ap, String, ◌&&◌, Option, none, some, List,
  [], ◌∷◌, All, arith, leb, if◌then◌else◌,
}

unfoldable pub hex_digit : ℕ → Option ℕ
hex_digit c =
    if leb 48 c && leb c 57
    then some (c - 48)
    else if leb 97 c && leb c 102
    then some (c - 87)
    else if leb 65 c && leb c 70
    then some (c - 55)
    else none

-- the bytes when two more digits stand before those that gave `rest`
unfoldable decode_pair : ℕ → ℕ → Option (List ℕ) → Option (List ℕ)
unfolding hex_digit
decode_pair a b rest = elim (hex_digit a) [
  | none ↦ none
  | some high ↦ elim (hex_digit b) [
    | none ↦ none
    | some low ↦ elim rest [ none ↦ none | some bytes ↦ some ((high * 16 + low) ∷ bytes) ]
  ]
]

unfoldable pub decode_hex : String → Option (List ℕ)
unfolding decode_pair
decode_hex String.[] = some []
decode_hex (String.◌∷◌ a String.[]) = none
decode_hex (String.◌∷◌ a (String.◌∷◌ b s)) = decode_pair (code a) (code b) (decode_hex s)

-- the character at a place of a text, or "0"
abbrev char_at : String → ℕ → Char
char_at String.[] n = "0"
char_at (String.◌∷◌ c s) zero = c
char_at (String.◌∷◌ c s) (suc n) = char_at s n

abbrev hex_char : ℕ → Char
hex_char n = char_at "0123456789abcdef" n

unfoldable pub encode_hex : List ℕ → String
encode_hex [] = ""
encode_hex (b ∷ bytes) =
    String.◌∷◌ (hex_char (b / 16)) (String.◌∷◌ (hex_char (b % 16)) (encode_hex bytes))

abbrev pub AreBytes : List ℕ → Type 0
AreBytes = All (λ b. b < 256)

hex_digit-hex_char : (n : ℕ) → n < 16 → hex_digit (code (hex_char n)) ≡ some n
unfolding hex_digit
hex_digit-hex_char zero h = refl
hex_digit-hex_char (suc zero) h = refl
hex_digit-hex_char (suc (suc zero)) h = refl
hex_digit-hex_char (suc (suc (suc zero))) h = refl
hex_digit-hex_char (suc (suc (suc (suc zero)))) h = refl
hex_digit-hex_char (suc (suc (suc (suc (suc zero))))) h = refl
hex_digit-hex_char (suc (suc (suc (suc (suc (suc zero)))))) h = refl
hex_digit-hex_char (suc (suc (suc (suc (suc (suc (suc zero))))))) h = refl
hex_digit-hex_char (suc (suc (suc (suc (suc (suc (suc (suc zero)))))))) h = refl
hex_digit-hex_char (suc (suc (suc (suc (suc (suc (suc (suc (suc zero))))))))) h = refl
hex_digit-hex_char (suc (suc (suc (suc (suc (suc (suc (suc (suc (suc zero)))))))))) h = refl
hex_digit-hex_char (suc (suc (suc (suc (suc (suc (suc (suc (suc (suc (suc zero))))))))))) h = refl
hex_digit-hex_char (suc (suc (suc (suc (suc (suc (suc (suc (suc (suc (suc (suc zero)))))))))))) h =
    refl
hex_digit-hex_char
      (suc (suc (suc (suc (suc (suc (suc (suc (suc (suc (suc (suc (suc zero))))))))))))) h =
    refl
hex_digit-hex_char
      (suc (suc (suc (suc (suc (suc (suc (suc (suc (suc (suc (suc (suc (suc zero)))))))))))))) h =
    refl
hex_digit-hex_char
      (suc (suc (suc (suc (suc (suc (suc (suc (suc (suc (suc (suc (suc (suc (suc zero)))))))))))))))
      h =
    refl
hex_digit-hex_char
      (suc
        (suc (suc (suc (suc (suc (suc (suc (suc (suc (suc (suc (suc (suc (suc (suc n))))))))))))))))
      h =
    absurd (omega arith)

pub decode_hex-encode_hex :
    (bytes : List ℕ) → AreBytes bytes → decode_hex (encode_hex bytes) ≡ some bytes
unfolding decode_hex encode_hex
decode_hex-encode_hex [] h = refl
decode_hex-encode_hex (b ∷ bytes) (small, rest) =
    let high = hex_digit-hex_char (b / 16) (omega arith) in
    let low = hex_digit-hex_char (b % 16) (omega arith) in
    let tail = decode_hex-encode_hex bytes rest in
    let whole : b / 16 * 16 + b % 16 ≡ b = omega arith in
    rw (high, decode_pair)
      (rw (low, decode_pair) (rw (tail, decode_pair) (ap (λ n. some (n ∷ bytes)) whole)))

decoded : decode_hex "0aF1" ≡ some (10 ∷ 241 ∷ [])
unfolding decode_hex decode_pair hex_digit
decoded = refl

encoded : encode_hex (10 ∷ 241 ∷ []) ≡ "0af1"
unfolding encode_hex
encoded = refl
