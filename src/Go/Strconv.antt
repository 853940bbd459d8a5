-- ===== src/Go/Strconv.antt =====
-- strconv.ParseUint, ParseInt, Atoi in base 10 with 64 bits, and Itoa.
use Prim.Native.Char.{code}
use Prim.Native.String
use meme_launchpad_backend.Common.{
  ℕ, zero, suc, ◌+◌, ◌-◌, ◌*◌, ◌/◌, ◌%◌, ◌^◌, ◌<◌, ◌≡◌, refl, String, true, false, ◌&&◌, ◌||◌,
  Option, none, some, arith, ltb, leb, ◌==◌, string_eq, nat_eq, if◌then◌else◌,
}

-- the library's ℤ over the native numbers
pub data ℤ : Type 0 where
  pos : ℕ → ℤ
  negsuc : ℕ → ℤ

abbrev pub negated : ℕ → ℤ
negated zero = pos zero
negated (suc n) = negsuc n

-- the value of a text of decimal digits after those that gave `n`
unfoldable pub digits : String → ℕ → Option ℕ
digits String.[] n = some n
digits (String.◌∷◌ c s) n =
    let rest = digits s (n * 10 + (code c - 48)) in
    if leb 48 (code c) && leb (code c) 57 then rest else none

-- `none` for every error: no digit, another character, out of range
unfoldable pub parse_uint : String → Option ℕ
unfolding digits
parse_uint s =
    if s == ""
    then none
    else elim (digits s 0) [ none ↦ none | some n ↦ if ltb n (2 ^ 64) then some n else none ]

unfoldable pub parse_int : String → Option ℤ
unfolding parse_uint
parse_int String.[] = none
parse_int (String.◌∷◌ c s) =
    let negative = code c == 45 in
    elim (parse_uint (if negative || code c == 43 then s else String.◌∷◌ c s)) [
      | none ↦ none
      | some n ↦
          if negative
          then (if leb n (2 ^ 63) then some (negated n) else none)
          else (if ltb n (2 ^ 63) then some (pos n) else none)
    ]

-- the last `k` decimal digits of a number, without zeros in front
unfoldable pub last_digits : ℕ → ℕ → String
last_digits zero n = ""
last_digits (suc k) n =
    let digit = String.slice "0123456789" (n % 10) (n % 10 + 1) in
    elim (ltb n 10) [ true ↦ digit | false ↦ String.◌++◌ (last_digits k (n / 10)) digit ]

-- strconv.Itoa of a number that is not negative; 64 bits have at most 20 digits
unfoldable pub itoa : ℕ → String
unfolding last_digits
itoa n = last_digits 20 n

-- big.Int's String and %d, for numbers of at most 78 digits, which those of 256 bits have
unfoldable pub int_string : ℤ → String
unfolding last_digits
int_string (pos n) = last_digits 78 n
int_string (negsuc n) = String.◌++◌ "-" (last_digits 78 (n + 1))

-- the conversion of an integer to an unsigned type of `w` bits
abbrev pub to_unsigned : ℕ → ℤ → ℕ
to_unsigned w (pos n) = n % 2 ^ w
to_unsigned w (negsuc n) = 2 ^ w - 1 - n % 2 ^ w

pub parse_uint-lt : (s : String) (n : ℕ) → parse_uint s ≡ some n → n < 2 ^ 64
unfolding parse_uint
parse_uint-lt s n h = ground arith

one_signed : parse_int "-1" ≡ some (negsuc 0)
unfolding parse_int parse_uint digits
one_signed = refl

too_large : parse_int "9223372036854775808" ≡ none
unfolding parse_int parse_uint digits
too_large = refl

largest : parse_int "+9223372036854775807" ≡ some (pos (2 ^ 63 - 1))
unfolding parse_int parse_uint digits
largest = refl

printed : itoa 39100 ≡ "39100"
unfolding itoa last_digits
printed = refl

-- an int of 64 bits for a number that may be too large
unfoldable pub wrap_int : ℕ → ℤ
wrap_int n = let m = n % 2 ^ 64 in if ltb m (2 ^ 63) then pos m else negsuc (2 ^ 64 - 1 - m)

pub wrap_int-same : (n : ℕ) → n < 2 ^ 63 → wrap_int n ≡ pos n
unfolding wrap_int
wrap_int-same n h = ground arith
