-- ===== src/Postgres/Table.antt =====
-- A table as the list of its rows, each behind the columns of a unique constraint. Columns that the
-- database fills by itself (`id`, `created_at`, `NOW()`) are left out.
use meme_launchpad_backend.Common.{
  ℕ, ◌≡◌, refl, Bool, Option, none, some, List, [], ◌∷◌, arith, Comparable, ◌==◌, ==_refl,
  if◌then◌else◌, Option-cases, Bool-cases, All, inl, inr,
}
use mathlib.Core.Option

abbrev pub Table : Type 0 → Type 0 → Type 0
Table K V = List (K × V)

abbrev pub or_else {ℓ} : {A : Type ℓ} → A → Option A → A
or_else d none = d
or_else d (some a) = a

module _ {K V : Type 0} ⦃e : Comparable K⦄ where
  -- SELECT ... WHERE key = k
  unfoldable pub lookup : K → Table K V → Option V
  lookup k [] = none
  lookup k ((j, v) ∷ t) = if j == k then some v else lookup k t

  -- INSERT ... ON CONFLICT (key) DO UPDATE SET ...: `merge` is the SET clause.
  unfoldable pub upsert : K → V → (V → V) → Table K V → Table K V
  upsert k fresh merge [] = (k, fresh) ∷ []
  upsert k fresh merge ((j, v) ∷ t) =
      if j == k then (j, merge v) ∷ t else (j, v) ∷ upsert k fresh merge t

  -- INSERT ... ON CONFLICT (key) DO NOTHING
  unfoldable pub insert_new : K → V → Table K V → Table K V
  unfolding upsert
  insert_new k v t = upsert k v (λ w. w) t

  -- The rows that an INSERT ... ON CONFLICT DO NOTHING affects.
  unfoldable pub rows_inserted : K → Table K V → ℕ
  unfolding lookup
  rows_inserted k t = elim (lookup k t) [ none ↦ 1 | some _ ↦ 0 ]

  -- UPDATE ... SET ... WHERE a test on the key
  unfoldable pub update_where : (K → Bool) → (V → V) → Table K V → Table K V
  update_where test set [] = []
  update_where test set ((k, v) ∷ t) = (k, if test k then set v else v) ∷ update_where test set t

  -- DELETE ... WHERE key = k
  unfoldable pub delete_row : K → Table K V → Table K V
  delete_row k [] = []
  delete_row k ((j, v) ∷ t) = let rest = delete_row k t in if j == k then rest else (j, v) ∷ rest

  pub lookup-delete_row :
      (k j : K) (t : Table K V) → lookup j (delete_row k t) ≡ (if k == j then none else lookup j t)
  unfolding lookup delete_row
  lookup-delete_row k j [] = ground arith
  lookup-delete_row k j ((i, v) ∷ t) =
      ground (arith, lookup-delete_row k j t, e.same_iff k j, e.same_iff i k, e.same_iff i j)

  pub lookup-upsert :
      (k j : K) (fresh : V) (merge : V → V) (t : Table K V)
      → lookup j (upsert k fresh merge t)
        ≡ (if k == j then some (or_else fresh (Option.map merge (lookup k t))) else lookup j t)
  unfolding lookup upsert
  lookup-upsert k j fresh merge [] = ground arith
  lookup-upsert k j fresh merge ((i, v) ∷ t) =
      ground
        (arith, lookup-upsert k j fresh merge t, e.same_iff k j, e.same_iff i k, e.same_iff i j)

  pub lookup-put :
      (k j : K) (v : V) (t : Table K V)
      → lookup j (upsert k v (λ _. v) t) ≡ (if k == j then some v else lookup j t)
  lookup-put k j v t = elim (Option-cases (lookup k t)) [
    | inl new ↦ rw (lookup-upsert k j v (λ _. v) t, new) refl
    | inr (old, there) ↦ rw (lookup-upsert k j v (λ _. v) t, there) refl
  ]

  pub lookup-insert_new :
      (k j : K) (v : V) (t : Table K V)
      → lookup j (insert_new k v t) ≡ (if k == j then some (or_else v (lookup k t)) else lookup j t)
  unfolding insert_new
  lookup-insert_new k j v t = elim (Option-cases (lookup k t)) [
    | inl h ↦ rw (lookup-upsert k j v (λ w. w) t, h) refl
    | inr (w, h) ↦ rw (lookup-upsert k j v (λ w. w) t, h) refl
  ]

  pub lookup-update_where :
      (j : K) (test : K → Bool) (set : V → V) (t : Table K V)
      → lookup j (update_where test set t)
        ≡ (if test j then Option.map set (lookup j t) else lookup j t)
  unfolding lookup update_where
  lookup-update_where j test set [] = ground arith
  lookup-update_where j test set ((i, v) ∷ t) =
      ground (arith, lookup-update_where j test set t, e.same_iff i j)

  -- A row that is there already is kept, so inserting it again changes nothing.
  pub insert_new-insert_new :
      (k : K) (v w : V) (t : Table K V) → insert_new k w (insert_new k v t) ≡ insert_new k v t
  unfolding insert_new upsert
  insert_new-insert_new k v w [] = rw (==_refl k) refl
  insert_new-insert_new k v w ((i, u) ∷ t) = ground (arith, insert_new-insert_new k v w t)

  pub upsert-upsert :
      (k : K) (fresh : V) (merge : V → V)
      → merge fresh ≡ fresh
      → ((v : V) → merge (merge v) ≡ merge v)
      → (t : Table K V) → upsert k fresh merge (upsert k fresh merge t) ≡ upsert k fresh merge t
  unfolding upsert
  upsert-upsert k fresh merge same twice [] = rw (==_refl k, same) refl
  upsert-upsert k fresh merge same twice ((i, u) ∷ t) =
      ground (arith, upsert-upsert k fresh merge same twice t, twice u)

  pub update_where-update_where :
      (test : K → Bool) (set : V → V)
      → ((v : V) → set (set v) ≡ set v)
      → (t : Table K V) → update_where test set (update_where test set t) ≡ update_where test set t
  unfolding update_where
  update_where-update_where test set twice [] = refl
  update_where-update_where test set twice ((i, u) ∷ t) =
      ground (arith, update_where-update_where test set twice t, twice u)

module _ {K V : Type 0} ⦃e : Comparable K⦄ where
  -- A property of the rows that new rows have and the SET clause keeps.
  pub All-upsert :
      (P : V → Type 0) (k : K) (fresh : V) (merge : V → V)
      → P fresh
      → ((v : V) → P v → P (merge v))
      → (t : Table K V) → All (λ (r : K × V). P r.1) t
      → All (λ (r : K × V). P r.1) (upsert k fresh merge t)
  unfolding upsert
  All-upsert P k fresh merge new old [] h = (new, tt)
  All-upsert P k fresh merge new old ((j, v) ∷ t) (p, rest) = elim (Bool-cases (j == k)) [
    | inl same ↦ rw same (old v p, rest)
    | inr other ↦ rw other (p, All-upsert P k fresh merge new old t rest)
  ]
