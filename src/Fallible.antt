-- ===== src/Fallible.antt =====
-- Go's pair of a value and an error as a sum, with `do` for chains of `if err != nil { return err }`.
use mathlib.Core.Path.{subst}
use meme_launchpad_backend.Common.{◌≡◌, refl, ◌⊎◌, inl, inr, Bool, true, false, String}
use meme_launchpad_backend.Go.Strings.{◌<>◌}

-- `errors.New` and `fmt.Errorf` without %w, and `fmt.Errorf` with %w at its end
pub data Error : Type 0 where
  msg : String → Error
  wrap : String → Error → Error

-- `err.Error()`
abbrev pub error_text : Error → String
error_text (msg s) = s
error_text (wrap s e) = s <> ": " <> error_text e

pub data Result {ℓ} (A : Type ℓ) : Type ℓ where
  ok : A → Result A
  err : Error → Result A

abbrev pub wrapped {ℓ} : {A : Type ℓ} → String → Result A → Result A
wrapped text (ok a) = ok a
wrapped text (err e) = err (wrap text e)

-- the next statement after a call whose error is returned at once
infixl 5 ◌>>=◌ ◌>>◌
abbrev pub ◌>>=◌ {ℓ κ} : {A : Type ℓ} {B : Type κ} → Result A → (A → Result B) → Result B
r >>= next = elim r [ err e ↦ err e | ok a ↦ next a ]

abbrev pub ◌>>◌ {ℓ} : {B : Type ℓ} → Result (Unit {0}) → Result B → Result B
r >> next = r >>= (λ _. next)

-- `if !b { return e }`
abbrev pub guard : Bool → Error → Result (Unit {0})
guard b e = elim b [ false ↦ err e | true ↦ ok tt ]

pub Result-cases :
    {A : Type 0} (r : Result A) → ((a : A) × (r ≡ ok a)) ⊎ ((e : Error) × (r ≡ err e))
Result-cases (ok a) = inl (a, refl)
Result-cases (err e) = inr (e, refl)

pub ok-injective {ℓ} : {A : Type ℓ} {x y : A} → ok x ≡ ok y → x ≡ y
ok-injective h = cc

-- A success has the property.
abbrev pub Yields {ℓ κ} : {A : Type ℓ} → (A → Type κ) → Result A → Type (ℓ ⊔ κ)
Yields P r = (a : _) → r ≡ ok a → P a

pub ok-Yields {ℓ κ} : {A : Type ℓ} (P : A → Type κ) {x : A} → P x → Yields P (ok x)
ok-Yields P p a h = subst P (ok-injective h) p

>>=-Yields {ℓ κ ι π} :
    {A : Type ℓ} {B : Type κ} {Q : A → Type ι} {P : B → Type π} {m : Result A} {f : A → Result B}
    → Yields Q m
    → ((a : A) → Q a → Yields P (f a))
    → Yields P (m >>= f)
>>=-Yields {m = ok a} q next b h = next a (q a refl) b h
>>=-Yields {m = err e} q next b h = cc

-- the same between the statements of a proof
infixr 4 ◌⟫◌
pub ◌⟫◌ {ℓ κ ι π} :
    {A : Type ℓ} {B : Type κ} {Q : A → Type ι} {P : B → Type π} {m : Result A} {f : A → Result B}
    → Yields Q m
    → ((a : A) → Q a → Yields P (f a))
    → Yields P (m >>= f)
◌⟫◌ = >>=-Yields

-- nothing is claimed of a success
pub any {ℓ} : {A : Type ℓ} (r : Result A) → Yields (λ _. Unit {0}) r
any r a h = tt

pub self {ℓ} : {A : Type ℓ} (r : Result A) → Yields (λ a. r ≡ ok a) r
self r a h = h

pub wrapped-Yields {ℓ κ} :
    {A : Type ℓ} {P : A → Type κ} (text : String) {r : Result A}
    → Yields P r
    → Yields P (wrapped text r)
wrapped-Yields text {r = ok a} y b h = y b h
wrapped-Yields text {r = err e} y b h = cc

pub guard-Yields : (b : Bool) (e : Error) → Yields (λ _. b ≡ true) (guard b e)
guard-Yields true e u h = refl
guard-Yields false e u h = cc
