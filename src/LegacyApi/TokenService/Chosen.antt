-- ===== src/LegacyApi/TokenService/Chosen.antt =====
-- The nonce and the address that are chosen for a token.
use mathlib.Core.Path.{subst}
use meme_launchpad_backend.Common.{
  ℕ, ◌<◌, ◌≡◌, ◌⊎◌, inl, inr, refl, sym, ◌∙◌, ap, String, false, Option, none, some, List, arith,
  ◌==◌, string_eq,
}
use meme_launchpad_backend.Fallible.{ok, ok-injective}
use meme_launchpad_backend.LegacyApi.{Packages}
use meme_launchpad_backend.LegacyApi.Create2.{
  Create2Calculator, calculate_salt, candidate, predict_address, find_vanity_address,
}
use meme_launchpad_backend.LegacyApi.Create2.Vanity.{
  Found, Serves, Fails, find_vanity_address-Found,
}
use meme_launchpad_backend.LegacyApi.TokenService.{TokenService, default_total_supply}
use meme_launchpad_backend.LegacyApi.TokenService.Create.{picked, choose_nonce, place}

module _ {Key : Type 0} (lib : Packages Key) (s : TokenService Key) (calc : Create2Calculator)
    (name symbol digits : String) (timestamp max_attempts given : ℕ) where
  abbrev Good : ℕ → Type 0
  Good = Serves lib calc name symbol default_total_supply s.core_contract timestamp digits

  abbrev Bad : ℕ → Type 0
  Bad = Fails lib calc name symbol default_total_supply s.core_contract timestamp digits

  -- The first nonce that serves, or the given one where none below the bound does.
  abbrev pub IsChosen : ℕ → Type 0
  IsChosen n =
      ((n < max_attempts) × Good n × ((m : ℕ) → m < n → Bad m))
      ⊎ ((n ≡ given) × ((m : ℕ) → m < max_attempts → Bad m))

  picked-IsChosen :
      (o : Option (ℕ × ℕ))
      → Found lib calc name symbol default_total_supply s.core_contract timestamp digits 0
          max_attempts o
      → IsChosen (picked given o)
  picked-IsChosen none found = inr (refl, λ m below. found m (omega arith) below)
  picked-IsChosen (some (n, a)) (_, below, good, _, first) =
      inl (below, good, λ m least. first m (omega arith) least)

  -- For a request with a suffix, over a calculator that is there, the nonce is the first one below the
  -- bound whose address ends with the suffix, or the given one if no nonce below the bound has such an
  -- address; the salt is the one of the nonce, and the address the one that is computed from both.
  pub place-IsChosen :
      s.create2_calc ≡ some calc
      → (digits == "") ≡ false
      → (n : ℕ) (salt : List ℕ) (a : ℕ)
      → place lib s name symbol timestamp digits max_attempts given ≡ ok (n, salt, a)
      → IsChosen n
        × (salt ≡ calculate_salt lib name symbol default_total_supply s.core_contract timestamp n)
        × (a
            ≡ candidate lib calc name symbol default_total_supply s.core_contract timestamp digits
                n)
  unfolding place choose_nonce predict_address
  place-IsChosen here wanted n salt a h =
      let found =
        find_vanity_address lib calc name symbol default_total_supply s.core_contract timestamp
          digits max_attempts in
      let e = ok-injective (rw (wanted, place) at (rw (here, place) at h)) in
      let same : picked given found ≡ n = ap (λ o. o.0) e in
      (
        subst IsChosen same (
            picked-IsChosen found (
              find_vanity_address-Found lib calc name symbol default_total_supply s.core_contract
                timestamp digits max_attempts)),
        sym (ap (λ o. o.1) e)
            ∙ ap (calculate_salt lib name symbol default_total_supply s.core_contract timestamp)
                same,
        sym (ap (λ o. o.2) e)
            ∙ ap
                (candidate lib calc name symbol default_total_supply s.core_contract timestamp
                  digits)
                same,
      )
