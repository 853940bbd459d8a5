-- ===== src/Upload/Distinct.antt =====
-- Two uploads share an object only if the random source repeats itself.
use Prim.Native.Char.{Char}
use meme_launchpad_backend.Common.{
  ℕ, ◌≡◌, refl, sym, ◌∙◌, ap, String, some-injective, List, [], ◌∷◌, length, ltb, arith,
}
use meme_launchpad_backend.Fallible.{ok, guard, msg, Yields, any, ◌⟫◌, ok-Yields}
use meme_launchpad_backend.Go.Strings.{◌<>◌}
use meme_launchpad_backend.Go.Hex.{encode_hex, decode_hex, AreBytes, decode_hex-encode_hex}
use meme_launchpad_backend.Go.Strconv.{itoa}
use meme_launchpad_backend.Config.{is_set}
use meme_launchpad_backend.Upload.{
  Packages, Service, PresignResult, random_file_name, extension, object_key, presign,
}

cons-injective : {c d : Char} {s t : String} → String.◌∷◌ c s ≡ String.◌∷◌ d t → (c ≡ d) × (s ≡ t)
cons-injective h = (cc, cc)

<>-cancel_left : (s t u : String) → (s <> t) ≡ (s <> u) → t ≡ u
<>-cancel_left String.[] t u h = h
<>-cancel_left (String.◌∷◌ c s) t u h = <>-cancel_left s t u (cons-injective h).1

-- Two texts of the same number of bytes in hexadecimal that agree with something behind each.
encode_hex-cancel :
    (xs ys : List ℕ) (s t : String)
    → length xs ≡ length ys
    → (encode_hex xs <> s) ≡ (encode_hex ys <> t)
    → encode_hex xs ≡ encode_hex ys
unfolding encode_hex
encode_hex-cancel [] [] s t same h = refl
encode_hex-cancel [] (y ∷ ys) s t same h = absurd (omega arith)
encode_hex-cancel (x ∷ xs) [] s t same h = absurd (omega arith)
encode_hex-cancel (x ∷ xs) (y ∷ ys) s t same h =
    let (high, tail) = cons-injective h in
    let (low, rest) = cons-injective tail in
    let more = encode_hex-cancel xs ys s t (omega arith) rest in
    λ i. String.◌∷◌ (high i) (String.◌∷◌ (low i) (more i))

same_bytes : (xs ys : List ℕ) → AreBytes xs → AreBytes ys → encode_hex xs ≡ encode_hex ys → xs ≡ ys
same_bytes xs ys p q h =
    some-injective (sym (decode_hex-encode_hex xs p) ∙ ap decode_hex h ∙ decode_hex-encode_hex ys q)

module _ (lib : Packages) where
  -- what `Presign` answers from the bytes of the random source
  record IsPresigned (xs : List ℕ) (folder mime : String) (chain_id : ℕ) (r : PresignResult)
      : Type 0 where
    key : r.key ≡ object_key folder chain_id (encode_hex xs <> extension lib mime)

  presign-IsPresigned :
      (s : Service) (clock : ℕ → ℕ) (xs : List ℕ) (folder mime : String) (chain_id : ℕ)
      → Yields
          (IsPresigned xs folder mime chain_id)
          (presign lib s clock (ok xs) folder mime chain_id)
  unfolding presign random_file_name
  presign-IsPresigned s clock xs folder mime chain_id =
      any (guard (is_set folder) (msg "folder is required")) ⟫ λ _ _.
      any (guard (ltb 0 chain_id) (msg "chainId must be positive")) ⟫ λ _ _.
      ok-Yields (IsPresigned xs folder mime chain_id) (record { key = refl })

  -- Two answers for one folder and chain, each from 16 bytes of the random source, name the same
  -- object only if the bytes are the same, whatever the services, times and MIME types.
  pub presign-distinct :
      (s s' : Service) (clock clock' : ℕ → ℕ) (xs ys : List ℕ) (folder mime mime' : String)
      (chain_id : ℕ) (r r' : PresignResult)
      → AreBytes xs
      → AreBytes ys
      → length xs ≡ 16
      → length ys ≡ 16
      → presign lib s clock (ok xs) folder mime chain_id ≡ ok r
      → presign lib s' clock' (ok ys) folder mime' chain_id ≡ ok r'
      → r.key ≡ r'.key
      → xs ≡ ys
  presign-distinct s s' clock clock' xs ys folder mime mime' chain_id r r' p q long long' h h'
        same =
      let k = (presign-IsPresigned s clock xs folder mime chain_id r h).key in
      let k' = (presign-IsPresigned s' clock' ys folder mime' chain_id r' h').key in
      let keys = sym k ∙ same ∙ k' in
      let after_folder = <>-cancel_left folder _ _ keys in
      let after_slash = <>-cancel_left "/" _ _ after_folder in
      let after_chain = <>-cancel_left (itoa chain_id) _ _ after_slash in
      let names = <>-cancel_left "/" _ _ after_chain in
      same_bytes xs ys p q (
        encode_hex-cancel xs ys (extension lib mime) (extension lib mime') (long ∙ sym long') names)
