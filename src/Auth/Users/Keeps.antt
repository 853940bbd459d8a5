-- ===== src/Auth/Users/Keeps.antt =====
-- What a statement on the users keeps.
use meme_launchpad_backend.Common.{
  ◌+◌, ◌<◌, ◌≡◌, refl, sym, ◌∙◌, ap, String, true, none, some, some-injective, ◌∷◌, arith,
  Bool-cases, ◌⊎◌, inl, inr, ◌==◌, eq_iff, ==_refl, nat_eq, string_eq,
}
use meme_launchpad_backend.Postgres.Table.{lookup}
use meme_launchpad_backend.Postgres.Transaction.{Result, ok}
use meme_launchpad_backend.Auth.{User}
use meme_launchpad_backend.Auth.Users.{Users}

-- Ids come from the sequence, and no two wallets have the same.
pub record IsNumbered (u : Users) : Type 0 where
  pub below : (k : String) (p : User) → lookup k u.rows ≡ some p → p.id < u.next_id
  pub single :
      (j k : String) (p q : User)
      → lookup j u.rows ≡ some p
      → lookup k u.rows ≡ some q
      → p.id ≡ q.id
      → j ≡ k

-- Every wallet keeps its user.
abbrev pub IsKept : Users → Users → Type 0
IsKept u v = (k : String) (p : User) → lookup k u.rows ≡ some p → lookup k v.rows ≡ some p

pub same_key : (j k : String) → (j == k) ≡ true → j ≡ k
same_key j k h = (eq_iff j k).0 h

-- one more row, for a wallet that had none
module _ (k : String) (new : User) (u v : Users) (inserted : v.rows ≡ (k, new) ∷ u.rows)
    (fresh : lookup k u.rows ≡ none) where
  pub inserted-IsKept : IsKept u v
  unfolding lookup
  inserted-IsKept j p h = elim (Bool-cases (k == j)) [
    | inl same ↦ let gone = ap (λ i. lookup i u.rows) (sym (same_key k j same)) ∙ fresh in absurd cc
    | inr other ↦ ap (lookup j) inserted ∙ rw other h
  ]

  -- a row is the new one or was there
  pub inserted-cases :
      (j : String) (p : User)
      → lookup j v.rows ≡ some p
      → ((k ≡ j) × (new ≡ p)) ⊎ (lookup j u.rows ≡ some p)
  unfolding lookup
  inserted-cases j p h = elim (Bool-cases (k == j)) [
    | inl same ↦
        inl (same_key k j same, some-injective (rw same at (sym (ap (lookup j) inserted) ∙ h)))
    | inr other ↦ inr (rw other at (sym (ap (lookup j) inserted) ∙ h))
  ]

  pub inserted-IsNumbered :
      new.id ≡ u.next_id → v.next_id ≡ u.next_id + 1 → IsNumbered u → IsNumbered v
  inserted-IsNumbered first next numbered = record { below = below; single = single }
    where
      below : (j : String) (p : User) → lookup j v.rows ≡ some p → p.id < v.next_id
      below j p h = elim (inserted-cases j p h) [
        | inl (_, it) ↦ let same = ap (λ q. q.id) it in omega (arith, first, next, same)
        | inr old ↦ omega (arith, next, numbered.below j p old)
      ]

      single :
          (j i : String) (p q : User)
          → lookup j v.rows ≡ some p
          → lookup i v.rows ≡ some q
          → p.id ≡ q.id
          → j ≡ i
      single j i p q g h same = elim (inserted-cases j p g) [
        | inl (here, it) ↦ elim (inserted-cases i q h) [
          | inl (there, _) ↦ sym here ∙ there
          | inr old ↦
              let mine = ap (λ r. r.id) it in
              absurd (omega (arith, first, mine, same, numbered.below i q old))
        ]
        | inr old ↦ elim (inserted-cases i q h) [
          | inl (_, it) ↦
              let mine = ap (λ r. r.id) it in
              absurd (omega (arith, first, mine, same, numbered.below j p old))
          | inr old' ↦ numbered.single j i p q old old' same
        ]
      ]

IsKept-then : (u v w : Users) → IsKept u v → IsKept v w → IsKept u w
IsKept-then u v w f g k p h = g k p (f k p h)

pub first : (k : String) (new : User) (u : Users) → lookup k ((k, new) ∷ u.rows) ≡ some new
unfolding lookup
first k new u = rw (==_refl k) refl

-- what a login does to the users of a table
pub record Grows (key : String) (u : Users) (r : Result User) (v : Users) : Type 0 where
  pub kept : IsKept u v
  pub numbered : IsNumbered u → IsNumbered v
  pub found : (p : User) → r ≡ ok p → lookup key v.rows ≡ some p
