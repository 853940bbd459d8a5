-- ===== src/Postgres/Query/Laws.antt =====
-- What LIMIT and OFFSET and the order do to rows.
use native.Mathlib.Numerals.{unary_clauses}
use meme_launchpad_backend.Common.{
  ℕ, zero, suc, ◌+◌, ◌*◌, ◌≤◌, ◌<◌, ◌≡◌, refl, ◌∙◌, ap, Bool, List, [], ◌∷◌, ◌++◌, length, All,
  none, map, Comparable, ◌==◌, ltb, arith, Bool-cases, inl, inr, if◌then◌else◌,
}
use meme_launchpad_backend.Fallible.{Result, ok, err}
use meme_launchpad_backend.Postgres.Table.{Table, lookup, upsert, insert_new}
use meme_launchpad_backend.Postgres.Query.{select, place_desc, order_desc, take, drop, total}

module _ {A : Type 0} where
  pub take-drop : (n m : ℕ) (xs : List A) → take n xs ++ take m (drop n xs) ≡ take (n + m) xs
  take-drop zero m xs = ap (λ j. take j xs) (sum m)
    where
      sum : (m : ℕ) → m ≡ 0 + m
      sum m = omega arith
  take-drop (suc n) zero [] = simp unary_clauses refl
  take-drop (suc n) (suc m) [] = simp unary_clauses refl
  take-drop (suc n) m (a ∷ xs) =
      ap (λ l. a ∷ l) (take-drop n m xs) ∙ ap (λ j. take j (a ∷ xs)) (sum n m)
    where
      sum : (n m : ℕ) → suc (n + m) ≡ suc n + m
      sum n m = omega arith

  pub take-all : (n : ℕ) (xs : List A) → length xs ≤ n → take n xs ≡ xs
  take-all zero [] h = refl
  take-all zero (a ∷ xs) h = absurd (omega (arith, h))
  take-all (suc n) [] h = refl
  take-all (suc n) (a ∷ xs) h = ap (λ l. a ∷ l) (take-all n xs (omega (arith, h)))

  -- what a reader of the first pages gets, one page after another
  unfoldable pub read_pages : (ℕ → Result (List A)) → ℕ → Result (List A)
  read_pages read zero = ok []
  read_pages read (suc k) = elim (read_pages read k) [
    | err e ↦ err e
    | ok xs ↦ elim (read k) [ err e ↦ err e | ok ys ↦ ok (xs ++ ys) ]
  ]

  -- Pages of n rows, one after another, are the first rows.
  pub read_pages-take :
      (read : ℕ → Result (List A)) (n : ℕ) (rows : List A) (k : ℕ)
      → ((i : ℕ) → i < k → read i ≡ ok (take n (drop (i * n) rows)))
      → read_pages read k ≡ ok (take (k * n) rows)
  unfolding read_pages
  read_pages-take read n rows zero h = ap (λ j. ok (take j rows)) (nothing n)
    where
      nothing : (n : ℕ) → 0 ≡ 0 * n
      nothing n = omega arith
  read_pages-take read n rows (suc k) h =
      rw (read_pages-take read n rows k (λ i low. h i (omega (arith, low))), read_pages)
        (rw (h k (omega arith), read_pages)
          (ap ok (take-drop (k * n) n rows ∙ ap (λ j. take j rows) (next k n))))
    where
      next : (k n : ℕ) → k * n + n ≡ suc k * n
      next k n = grind arith

  length-place_desc :
      (key : A → ℕ) (a : A) (xs : List A) → length (place_desc key a xs) ≡ suc (length xs)
  unfolding place_desc
  length-place_desc key a [] = refl
  length-place_desc key a (b ∷ bs) = elim (Bool-cases (ltb (key b) (key a))) [
    | inl below ↦ rw below refl
    | inr above ↦ rw above (ap suc (length-place_desc key a bs))
  ]

  pub length-order_desc : (key : A → ℕ) (xs : List A) → length (order_desc key xs) ≡ length xs
  unfolding order_desc
  length-order_desc key [] = refl
  length-order_desc key (a ∷ xs) =
      length-place_desc key a (order_desc key xs) ∙ ap suc (length-order_desc key xs)

  -- each row is at or before every row that follows
  abbrev pub IsDescending : (A → ℕ) → List A → Type 0
  IsDescending key [] = Unit
  IsDescending key (a ∷ xs) = All (λ b. key b ≤ key a) xs × IsDescending key xs

  pub All-place_desc :
      (P : A → Type 0) (key : A → ℕ) (a : A) (xs : List A)
      → P a
      → All P xs
      → All P (place_desc key a xs)
  unfolding place_desc
  All-place_desc P key a [] p h = (p, tt)
  All-place_desc P key a (b ∷ bs) p (q, h) = elim (Bool-cases (ltb (key b) (key a))) [
    | inl below ↦ rw below (p, (q, h))
    | inr above ↦ rw above (q, All-place_desc P key a bs p h)
  ]

  pub All-order_desc :
      (P : A → Type 0) (key : A → ℕ) (xs : List A) → All P xs → All P (order_desc key xs)
  unfolding order_desc
  All-order_desc P key [] h = tt
  All-order_desc P key (a ∷ xs) (p, h) =
      All-place_desc P key a (order_desc key xs) p (All-order_desc P key xs h)

  pub All-take : (P : A → Type 0) (n : ℕ) (xs : List A) → All P xs → All P (take n xs)
  All-take P zero xs h = tt
  All-take P (suc n) [] h = tt
  All-take P (suc n) (a ∷ xs) (p, h) = (p, All-take P n xs h)

  pub All-drop : (P : A → Type 0) (n : ℕ) (xs : List A) → All P xs → All P (drop n xs)
  All-drop P zero xs h = h
  All-drop P (suc n) [] h = tt
  All-drop P (suc n) (a ∷ xs) (p, h) = All-drop P n xs h

  pub All-select :
      (P : A → Type 0) (test : A → Bool) (xs : List A) → All P xs → All P (select test xs)
  unfolding select
  All-select P test [] h = tt
  All-select P test (a ∷ xs) (p, h) = elim (Bool-cases (test a)) [
    | inl chosen ↦ rw (chosen, select) (p, All-select P test xs h)
    | inr left ↦ rw (left, select) (All-select P test xs h)
  ]

  All-below :
      (key : A → ℕ) (m n : ℕ) (xs : List A)
      → m ≤ n
      → All (λ b. key b ≤ m) xs
      → All (λ b. key b ≤ n) xs
  All-below key m n [] h tt = tt
  All-below key m n (a ∷ xs) h (p, rest) = (omega (arith, p, h), All-below key m n xs h rest)

  place_desc-IsDescending :
      (key : A → ℕ) (a : A) (xs : List A)
      → IsDescending key xs
      → IsDescending key (place_desc key a xs)
  unfolding place_desc
  place_desc-IsDescending key a [] h = (tt, tt)
  place_desc-IsDescending key a (b ∷ bs) (p, h) = elim (Bool-cases (ltb (key b) (key a))) [
    | inl below ↦
        rw below ((ground arith, All-below key (key b) (key a) bs (ground arith) p), (p, h))
    | inr above ↦ rw above (
      All-place_desc (λ c. key c ≤ key b) key a bs (ground arith) p,
      place_desc-IsDescending key a bs h,
    )
  ]

  pub order_desc-IsDescending : (key : A → ℕ) (xs : List A) → IsDescending key (order_desc key xs)
  unfolding order_desc
  order_desc-IsDescending key [] = tt
  order_desc-IsDescending key (a ∷ xs) =
      place_desc-IsDescending key a (order_desc key xs) (order_desc-IsDescending key xs)

  -- an order keeps the sum of every column
  total-place_desc :
      (column key : A → ℕ) (a : A) (xs : List A)
      → total column (place_desc key a xs) ≡ column a + total column xs
  unfolding place_desc total
  total-place_desc column key a [] = refl
  total-place_desc column key a (b ∷ bs) = elim (Bool-cases (ltb (key b) (key a))) [
    | inl below ↦ rw below refl
    | inr above ↦ rw above (omega (arith, total-place_desc column key a bs))
  ]

  pub total-order_desc :
      (column key : A → ℕ) (xs : List A) → total column (order_desc key xs) ≡ total column xs
  unfolding order_desc total
  total-order_desc column key [] = refl
  total-order_desc column key (a ∷ xs) =
      total-place_desc column key a (order_desc key xs)
      ∙ ap (λ n. column a + n) (total-order_desc column key xs)

  pub total-append :
      (column : A → ℕ) (xs ys : List A)
      → total column (xs ++ ys) ≡ total column xs + total column ys
  unfolding total
  total-append column [] ys = omega arith
  total-append column (a ∷ xs) ys = omega (arith, total-append column xs ys)

module _ {A B : Type 0} where
  pub total-map :
      (column : B → ℕ) (f : A → B) (xs : List A)
      → total column (map f xs) ≡ total (λ a. column (f a)) xs
  unfolding total
  total-map column f [] = refl
  total-map column f (a ∷ xs) = ap (λ n. column (f a) + n) (total-map column f xs)

  pub length-map : (f : A → B) (xs : List A) → length (map f xs) ≡ length xs
  length-map f [] = refl
  length-map f (a ∷ xs) = ap suc (length-map f xs)

module _ {K V : Type 0} ⦃e : Comparable K⦄ where
  -- A new row is behind the rows that were there.
  pub select-insert_new :
      (test : K × V → Bool) (k : K) (v : V) (t : Table K V)
      → lookup k t ≡ none
      → select test (insert_new k v t) ≡ select test t ++ (if test (k, v) then (k, v) ∷ [] else [])
  unfolding insert_new upsert lookup select
  select-insert_new test k v [] h = refl
  select-insert_new test k v ((j, w) ∷ t) h = elim (Bool-cases (j == k)) [
    | inl same ↦ let found = rw (same, lookup) at h in absurd cc
    | inr other ↦
        let ih = select-insert_new test k v t (rw (other, lookup) at h) in
        elim (Bool-cases (test (j, w))) [
          | inl chosen ↦ rw (other, upsert) (rw (chosen, select) (ap (λ l. (j, w) ∷ l) ih))
          | inr left ↦ rw (other, upsert) (rw (left, select) ih)
        ]
  ]
