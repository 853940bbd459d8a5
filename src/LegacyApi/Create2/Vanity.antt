-- ===== src/LegacyApi/Create2/Vanity.antt =====
-- The search for a vanity address finds the first nonce that serves.
use mathlib.Core.Path.{subst}
use native.Mathlib.Decide.{dec_lt}
use meme_launchpad_backend.Common.{
  ℕ, zero, suc, ◌+◌, ◌≤◌, ◌<◌, ◌≡◌, inl, inr, refl, String, true, false, Option, none, some, arith,
  Bool-cases,
}
use meme_launchpad_backend.LegacyApi.{Packages}
use meme_launchpad_backend.LegacyApi.Create2.{
  Create2Calculator, candidate, matches, find_from, find_vanity_address,
}

module _ {Key : Type 0} (lib : Packages Key) (c : Create2Calculator) (name symbol : String)
    (total_supply owner timestamp : ℕ) (suffix : String) where
  -- whether the address of a nonce ends with the suffix, upper case apart
  abbrev pub Serves : ℕ → Type 0
  Serves nonce = matches lib c name symbol total_supply owner timestamp suffix nonce ≡ true

  abbrev pub Fails : ℕ → Type 0
  Fails nonce = matches lib c name symbol total_supply owner timestamp suffix nonce ≡ false

  -- What a search of the nonces from `low` up to, not including, `high` has found.
  abbrev pub Found : ℕ → ℕ → Option (ℕ × ℕ) → Type 0
  Found low high none = (m : ℕ) → low ≤ m → m < high → Fails m
  Found low high (some (n, a)) =
      (low ≤ n)
      × (n < high)
      × Serves n
      × (a ≡ candidate lib c name symbol total_supply owner timestamp suffix n)
      × ((m : ℕ) → low ≤ m → m < n → Fails m)

  -- one more nonce at the lower end, which fails
  Found-extend :
      (low high : ℕ) (o : Option (ℕ × ℕ)) → Fails low → Found (suc low) high o → Found low high o
  Found-extend low high none fails rest = below
    where
      below : (m : ℕ) → low ≤ m → m < high → Fails m
      below m start upto = elim (dec_lt low m) [
        | yes more ↦ rest m (omega arith) upto
        | no less ↦ subst Fails (omega arith) fails
      ]
  Found-extend low high (some (n, a)) fails (from, upto, serves, address, least) =
      (omega arith, upto, serves, address, below)
    where
      below : (m : ℕ) → low ≤ m → m < n → Fails m
      below m start before = elim (dec_lt low m) [
        | yes more ↦ least m (omega arith) before
        | no less ↦ subst Fails (omega arith) fails
      ]

  find_from-Found :
      (attempts nonce : ℕ)
      → Found nonce
          (nonce + attempts)
          (find_from lib c name symbol total_supply owner timestamp suffix attempts nonce)
  unfolding find_from
  find_from-Found zero nonce = λ m low high. absurd (omega arith)
  find_from-Found (suc attempts) nonce =
      elim (Bool-cases (matches lib c name symbol total_supply owner timestamp suffix nonce)) [
        | inl serves ↦
            rw (serves, find_from)
              (omega arith, omega arith, serves, refl, λ m low high. absurd (omega arith))
        | inr fails ↦
            rw (fails, find_from)
              (Found-extend nonce (nonce + suc attempts)
                (find_from lib c name symbol total_supply owner timestamp suffix attempts
                  (suc nonce))
                fails
                (subst
                  (λ high. Found (suc nonce) high (
                    find_from lib c name symbol total_supply owner timestamp suffix attempts
                      (suc nonce)))
                  (omega arith) (find_from-Found attempts (suc nonce))))
      ]

  -- The search returns the first nonce below the bound whose address ends with the suffix, together
  -- with this address, and finds nothing only if no nonce below the bound has such an address.
  pub find_vanity_address-Found :
      (max_attempts : ℕ)
      → Found 0 max_attempts
          (find_vanity_address lib c name symbol total_supply owner timestamp suffix max_attempts)
  unfolding find_vanity_address
  find_vanity_address-Found max_attempts =
      subst
        (λ high.
          Found 0 high
            (find_from lib c name symbol total_supply owner timestamp suffix max_attempts 0))
        (omega arith) (find_from-Found max_attempts 0)
