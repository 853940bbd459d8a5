-- ===== src/Common/Equality.antt =====
-- Go's `==` on the types that are compared or used as keys.
use Prim.Native.Nat.{ℕ}
use Prim.Native.String.{String}
use mathlib.Core.Path.{◌≡◌, refl}
use mathlib.Core.Logic.{◌↔◌}
use mathlib.Core.Bool.{Bool, true, ◌&&◌}
use native.Mathlib.Omega.{arith}
use text.Mathlib.Text.{◌==◌ as str_eq}
use text.Mathlib.TextEquality.{eq_iff}
use meme_launchpad_backend.Common.Tests.{nat_beq, nat_beq_iff, &&_iff}

-- A type whose values Go compares, with what the comparison decides.
pub record Comparable {ℓ} (A : Type ℓ) : Type ℓ where
  pub same : A → A → Bool
  pub same_iff : (x y : A) → (same x y ≡ true) ↔ (x ≡ y)

instance abbrev pub string_eq : Comparable String
string_eq = record { same_iff = eq_iff; same = str_eq }

instance abbrev pub nat_eq : Comparable ℕ
nat_eq = record { same_iff = nat_beq_iff; same = nat_beq }

module _ {ℓ} {A : Type ℓ} ⦃e : Comparable A⦄ where
  infix 50 ◌==◌
  abbrev pub ◌==◌ : A → A → Bool
  x == y = e.same x y

  pub ==_refl : (x : A) → (x == x) ≡ true
  ==_refl x = (e.same_iff x x).1 refl

module _ {A B : Type 0} ⦃d : Comparable A⦄ ⦃e : Comparable B⦄ where
  abbrev pub pair_beq : A × B → A × B → Bool
  pair_beq (a, b) (x, y) = d.same a x && e.same b y

  pub pair_beq_iff : (p q : A × B) → (pair_beq p q ≡ true) ↔ (p ≡ q)
  pair_beq_iff (a, b) (x, y) =
      ground (arith, &&_iff (d.same a x) (e.same b y), d.same_iff a x, e.same_iff b y)

  instance abbrev pub pair_eq : Comparable (A × B)
  pair_eq = record { same = pair_beq; same_iff = pair_beq_iff }

module _ {A B C : Type 0} ⦃d : Comparable A⦄ ⦃e : Comparable B⦄ ⦃f : Comparable C⦄ where
  abbrev pub triple_beq : A × B × C → A × B × C → Bool
  triple_beq (a, b, c) (x, y, z) = d.same a x && (e.same b y && f.same c z)

  pub triple_beq_iff : (p q : A × B × C) → (triple_beq p q ≡ true) ↔ (p ≡ q)
  triple_beq_iff (a, b, c) (x, y, z) =
      ground (arith, d.same_iff a x, e.same_iff b y, f.same_iff c z)

  instance abbrev pub triple_eq : Comparable (A × B × C)
  triple_eq = record { same = triple_beq; same_iff = triple_beq_iff }
