-- ===== src/Postgres/Query.antt =====
-- Queries over the rows of a table, in the order in which the query scans them. ORDER BY sorts the rows
-- that WHERE chooses; rows with equal keys keep the order of the scan. The order of a scan is up to the
-- database and may change from query to query: Ties has what holds for every order.
pub mod Laws
pub mod Cursor
pub mod Ties
use meme_launchpad_backend.Common.{
  ℕ, zero, suc, ◌+◌, Bool, true, false, Option, none, some, List, [], ◌∷◌, ltb, if◌then◌else◌,
}
use meme_launchpad_backend.Fallible.{Error, msg, Result, ok, err}
use meme_launchpad_backend.Go.Strconv.{ℤ, pos, negsuc}
use meme_launchpad_backend.Postgres.Transaction.{World, next_fault, broken}

module _ {A : Type 0} where
  -- WHERE
  unfoldable pub select : (A → Bool) → List A → List A
  select test [] = []
  select test (a ∷ xs) = let rest = select test xs in if test a then a ∷ rest else rest

  -- ORDER BY key DESC
  unfoldable pub place_desc : (A → ℕ) → A → List A → List A
  place_desc key a [] = a ∷ []
  place_desc key a (b ∷ bs) =
      let rest = place_desc key a bs in if ltb (key b) (key a) then a ∷ b ∷ bs else b ∷ rest

  unfoldable pub order_desc : (A → ℕ) → List A → List A
  unfolding place_desc
  order_desc key [] = []
  order_desc key (a ∷ xs) = place_desc key a (order_desc key xs)

  abbrev pub take : ℕ → List A → List A
  take zero xs = []
  take (suc n) [] = []
  take (suc n) (a ∷ xs) = a ∷ take n xs

  abbrev pub drop : ℕ → List A → List A
  drop zero xs = xs
  drop (suc n) [] = []
  drop (suc n) (_ ∷ xs) = drop n xs

  abbrev pub last : List A → Option A
  last [] = none
  last (a ∷ []) = some a
  last (_ ∷ b ∷ xs) = last (b ∷ xs)

  -- LIMIT and OFFSET
  abbrev pub limited : ℤ → List A → Result (List A)
  limited (pos n) xs = ok (take n xs)
  limited (negsuc _) xs = err (msg "LIMIT must not be negative")

  abbrev pub page : ℤ → ℤ → List A → Result (List A)
  page limit (pos n) xs = limited limit (drop n xs)
  page limit (negsuc _) xs = err (msg "OFFSET must not be negative")

  -- SUM of a column
  unfoldable pub total : (A → ℕ) → List A → ℕ
  total key [] = 0
  total key (a ∷ xs) = key a + total key xs

  -- LIMIT 1 of a QueryRow
  abbrev pub first : List A → Result A
  first [] = err (msg "no rows in result set")
  first (a ∷ _) = ok a

module _ {D A : Type 0} where
  -- one statement that only reads, outside a transaction
  unfoldable pub query : (D → Result A) → World D → Result A × World D
  query statement w =
      let (bad, rest) = next_fault w.faults in
      (if bad then err broken else statement w.db, record w { faults = rest })

-- the rows of a page with the number of all rows, of two statements
unfoldable pub paged :
    {D V : Type 0} → (D → ℕ) → (D → List V) → ℤ → ℤ → World D → Result (List V × ℕ) × World D
unfolding query
paged count rows limit offset w =
    let (counted, w') = query (λ d. ok (count d)) w in
    elim counted [
      | err e ↦ (err e, w')
      | ok n ↦
          let (r, w'') = query (λ d. page limit offset (rows d)) w' in
          (elim r [ err e ↦ err e | ok vs ↦ ok (vs, n) ], w'')
    ]
