-- ===== src/LegacyApi/Signer/Verifies.antt =====
-- What the signer has signed, `VerifySignature` accepts; and the two units of a time agree.
use mathlib.Core.Path.{subst}
use meme_launchpad_backend.Common.{
  ℕ, ◌+◌, ◌*◌, ◌≤◌, ◌<◌, ◌≡◌, ◌^◌, refl, sym, ◌∙◌, ap, String, true, List, [], ◌∷◌, ◌++◌, length,
  length-append, arith, ◌==◌, nat_eq,
}
use meme_launchpad_backend.Fallible.{
  ok, msg, Yields, any, self, wrapped-Yields, guard-Yields, ◌⟫◌, ok-Yields,
}
use meme_launchpad_backend.Go.Bytes.{copied, update_at}
use meme_launchpad_backend.LegacyApi.{CreateTokenParams, Packages}
use meme_launchpad_backend.LegacyApi.Signer.{
  Signer, to_seconds, encoded_data, sign_packed, check_encoding, packed_data, raised, lowered,
  ethereum_signature, sign_create_token_params, verify_signature,
}

copied-same : (xs : List ℕ) → copied (length xs) xs ≡ xs
copied-same [] = refl
copied-same (x ∷ xs) = ap (λ t. x ∷ t) (copied-same xs)

update_at-last :
    (f : ℕ → ℕ) (xs : List ℕ) (v : ℕ) → update_at (length xs) f (xs ++ (v ∷ [])) ≡ xs ++ (f v ∷ [])
update_at-last f [] v = refl
update_at-last f (x ∷ xs) v = ap (λ t. x ∷ t) (update_at-last f xs v)

-- 64 bytes and a recovery id that is 0 or 1, as `Sign` is documented to return
pub record IsRecoverable (signature : List ℕ) : Type 0 where
  pub rs : List ℕ
  pub v : ℕ
  pub ends : signature ≡ rs ++ (v ∷ [])
  pub long : length rs ≡ 64
  pub id : v ≤ 1

copied-whole : (xs : List ℕ) {n : ℕ} → length xs ≡ n → copied n xs ≡ xs
copied-whole xs same = subst (λ n. copied n xs ≡ xs) same (copied-same xs)

signature-length : (rs : List ℕ) (v : ℕ) → length rs ≡ 64 → length (rs ++ (v ∷ [])) ≡ 65
signature-length rs v long = length-append rs (v ∷ []) ∙ omega arith

adjusted :
    (f : ℕ → ℕ) (rs : List ℕ) (v : ℕ)
    → length rs ≡ 64
    → update_at 64 f (copied 65 (rs ++ (v ∷ []))) ≡ rs ++ (f v ∷ [])
adjusted f rs v long =
    ap (update_at 64 f) (copied-whole (rs ++ (v ∷ [])) (signature-length rs v long))
    ∙ subst (λ n. update_at n f (rs ++ (v ∷ [])) ≡ rs ++ (f v ∷ [])) long (update_at-last f rs v)

lowered-raised : (v : ℕ) → v ≤ 1 → lowered (raised v) ≡ v
lowered-raised v id = ground arith

module _ {Key : Type 0} (lib : Packages Key) (s : Signer Key) where
  -- The documented results of the packages: `Sign` returns a recoverable signature, and `EqualFold`
  -- holds of equal texts.
  pub record AreDocumented : Type 0 where
    pub signs : (hash : List ℕ) → Yields IsRecoverable (lib.sign hash s.private_key)
    pub folds : (text : String) → lib.equal_fold text text ≡ true

  -- what `VerifySignature` makes of a signature for the packed data
  abbrev Verifies : ℕ → ℕ → List ℕ × List ℕ → Type 0
  Verifies chain_id contract (encoded, signature) =
      verify_signature lib (packed_data encoded chain_id contract) signature s.address ≡ true

  module _ (doc : AreDocumented) where
    accepted :
        (bytes signature : List ℕ) (recovered : ℕ)
        → length signature ≡ 65
        → lib.sig_to_address (lib.keccak256 bytes) (update_at 64 lowered (copied 65 signature))
          ≡ ok recovered
        → (recovered == s.address) ≡ true
        → verify_signature lib bytes signature s.address ≡ true
    unfolding verify_signature
    accepted bytes signature recovered long found same =
        let whole : (length signature == 65) ≡ true = ap (λ n. n == 65) long in
        rw (whole, verify_signature)
          (rw (found, verify_signature)
            (subst (λ a. lib.equal_fold (lib.address_hex recovered) (lib.address_hex a) ≡ true)
              ((nat_eq.same_iff recovered s.address).0 same)
              (doc.folds (lib.address_hex recovered))))

    recovered-accepted :
        (bytes : List ℕ) (recovered : ℕ) (signature : List ℕ)
        → IsRecoverable signature
        → lib.sig_to_address (lib.keccak256 bytes) signature ≡ ok recovered
        → (recovered == s.address) ≡ true
        → verify_signature lib bytes (ethereum_signature signature) s.address ≡ true
    unfolding ethereum_signature
    recovered-accepted bytes recovered signature r found same =
        let sent : ethereum_signature signature ≡ r.rs ++ (raised r.v ∷ []) =
          ap ethereum_signature r.ends ∙ adjusted raised r.rs r.v r.long in
        let back : update_at 64 lowered (copied 65 (ethereum_signature signature)) ≡ signature =
          ap (λ t. update_at 64 lowered (copied 65 t)) sent
          ∙ adjusted lowered r.rs (raised r.v) r.long
          ∙ ap (λ v. r.rs ++ (v ∷ [])) (lowered-raised r.v r.id)
          ∙ sym r.ends in
        let long : length (ethereum_signature signature) ≡ 65 =
          ap length sent ∙ signature-length r.rs (raised r.v) r.long in
        accepted bytes (ethereum_signature signature) recovered long
          (ap (lib.sig_to_address (lib.keccak256 bytes)) back ∙ found) same

    sign_packed-accepted :
        (bytes : List ℕ)
        → Yields
            (λ signature. verify_signature lib bytes signature s.address ≡ true)
            (sign_packed lib s bytes)
    unfolding sign_packed
    sign_packed-accepted bytes =
        let hash = lib.keccak256 bytes in
        wrapped-Yields "failed to sign" (doc.signs hash) ⟫ λ sig r.
        wrapped-Yields "failed to recover public key from signature"
          (self (lib.sig_to_address hash sig))
        ⟫ λ recovered found.
            guard-Yields (recovered == s.address) (msg "signature recovery failed") ⟫ λ _ same.
            ok-Yields (λ signature. verify_signature lib bytes signature s.address ≡ true)
              (recovered-accepted bytes recovered sig r found same)

    sign_create_token_params-Verifies :
        (p : CreateTokenParams) (chain_id contract : ℕ)
        → Yields (Verifies chain_id contract) (sign_create_token_params lib s p chain_id contract)
    unfolding sign_create_token_params
    sign_create_token_params-Verifies p chain_id contract = any (encoded_data lib p) ⟫ λ bytes _.
        any (check_encoding bytes) ⟫ λ _ _.
        sign_packed-accepted (packed_data bytes chain_id contract) ⟫ λ signature good.
        ok-Yields (Verifies chain_id contract) good

    -- If `Sign` returns 64 bytes and a recovery id of 0 or 1, then every signature that
    -- `SignCreateTokenParams` returns is accepted by `VerifySignature` for the signer's address and the
    -- returned data packed with the chain and the contract.
    pub sign_create_token_params-verify_signature :
        (p : CreateTokenParams) (chain_id contract : ℕ) (encoded signature : List ℕ)
        → sign_create_token_params lib s p chain_id contract ≡ ok (encoded, signature)
        → verify_signature lib (packed_data encoded chain_id contract) signature s.address ≡ true
    sign_create_token_params-verify_signature p chain_id contract encoded signature h =
        sign_create_token_params-Verifies p chain_id contract (encoded, signature) h

-- The times that are signed agree for the two units: a time in seconds from 10^7 to 10^10, and any time
-- in milliseconds within this second.
pub to_seconds-units :
    (seconds rest : ℕ)
    → 10 ^ 7 < seconds
    → seconds ≤ 10 ^ 10
    → rest < 1000
    → to_seconds (seconds * 1000 + rest) ≡ to_seconds seconds
unfolding to_seconds
to_seconds-units seconds rest above below small = ground arith
