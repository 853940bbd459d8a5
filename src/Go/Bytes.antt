-- ===== src/Go/Bytes.antt =====
-- Numbers and strings as bytes: big.Int.FillBytes and SetBytes, and []byte of a string, its UTF-8.
use Prim.Native.Char.{code}
use meme_launchpad_backend.Common.{
  ℕ, zero, suc, ◌+◌, ◌*◌, ◌/◌, ◌%◌, ◌≡◌, refl, String, List, [], ◌∷◌, ◌++◌, ltb, if◌then◌else◌,
}

-- the last `w` bytes of a number, the highest first
unfoldable pub fill_bytes : ℕ → ℕ → List ℕ
fill_bytes zero n = []
fill_bytes (suc w) n = fill_bytes w (n / 256) ++ (n % 256 ∷ [])

-- the number of the bytes that follow those that gave `n`
unfoldable pub set_bytes : ℕ → List ℕ → ℕ
set_bytes n [] = n
set_bytes n (b ∷ bytes) = set_bytes (n * 256 + b) bytes

unfoldable pub utf8 : String → List ℕ
utf8 String.[] = []
utf8 (String.◌∷◌ c s) =
    let n = code c in
    let rest = utf8 s in
    let tail = λ (k : ℕ). 128 + k % 64 in
    if ltb n 128
    then n ∷ rest
    else if ltb n 2048
    then (192 + n / 64) ∷ tail n ∷ rest
    else if ltb n 65536
    then (224 + n / 4096) ∷ tail (n / 64) ∷ tail n ∷ rest
    else (240 + n / 262144) ∷ tail (n / 4096) ∷ tail (n / 64) ∷ tail n ∷ rest

abbrev pub take : ℕ → List ℕ → List ℕ
take zero bytes = []
take (suc n) [] = []
take (suc n) (b ∷ bytes) = b ∷ take n bytes

abbrev pub drop : ℕ → List ℕ → List ℕ
drop zero bytes = bytes
drop (suc n) [] = []
drop (suc n) (_ ∷ bytes) = drop n bytes

-- `copy` into a new array of `n` bytes
abbrev pub copied : ℕ → List ℕ → List ℕ
copied zero bytes = []
copied (suc n) [] = 0 ∷ copied n []
copied (suc n) (b ∷ bytes) = b ∷ copied n bytes

-- `bytes[i] = f(bytes[i])`, where the index is in range
abbrev pub update_at : ℕ → (ℕ → ℕ) → List ℕ → List ℕ
update_at i f [] = []
update_at zero f (b ∷ bytes) = f b ∷ bytes
update_at (suc i) f (b ∷ bytes) = b ∷ update_at i f bytes

euro : utf8 "a€" ≡ 97 ∷ 226 ∷ 130 ∷ 172 ∷ []
unfolding utf8
euro = refl

word : set_bytes 0 (fill_bytes 32 70000) ≡ 70000
unfolding set_bytes fill_bytes
word = refl
