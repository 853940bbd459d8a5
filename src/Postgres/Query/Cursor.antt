-- ===== src/Postgres/Query/Cursor.antt =====
-- Pages by cursor: ORDER BY a column DESC with LIMIT, and the rows below the last row of a page.
use mathlib.Core.Path.{subst}
use meme_launchpad_backend.Common.{
  ℕ, suc, zero, ◌<◌, ◌≡◌, refl, ◌∙◌, ap, Bool, true, false, ◌&&◌, some, List, [], ◌∷◌, All, arith,
  ltb, Bool-cases, some-injective, inl, inr, if◌then◌else◌,
}
use meme_launchpad_backend.Postgres.Query.{select, place_desc, order_desc, take, drop, last}
use meme_launchpad_backend.Postgres.Query.Laws.{All-place_desc, All-order_desc}

pub earlier : (m n : ℕ) → m < n → ltb m n ≡ true
earlier m n h = ground arith

pub not_earlier : (m n : ℕ) → n < m → ltb m n ≡ false
not_earlier m n h = ground arith

irreflexive : (m : ℕ) → ltb m m ≡ false
irreflexive m = ground arith

module _ {A : Type 0} where
  pub select-All : (p : A → Bool) (xs : List A) → All (λ a. p a ≡ true) (select p xs)
  unfolding select
  select-All p [] = tt
  select-All p (a ∷ xs) = elim (Bool-cases (p a)) [
    | inl chosen ↦ rw (chosen, select) (chosen, select-All p xs)
    | inr other ↦ rw (other, select) (select-All p xs)
  ]

  pub last-All :
      (P : A → Type 0) (n : ℕ) (xs : List A) (a : A) → All P xs → last (take n xs) ≡ some a → P a
  last-All P zero xs a hs h = absurd cc
  last-All P (suc n) [] a hs h = absurd cc
  last-All P (suc zero) (x ∷ xs) a hs h = subst P (some-injective h) hs.0
  last-All P (suc (suc n)) (x ∷ []) a hs h = subst P (some-injective h) hs.0
  last-All P (suc (suc n)) (x ∷ y ∷ ys) a hs h = last-All P (suc n) (y ∷ ys) a hs.1 h

module _ {A : Type 0} (key : A → ℕ) where
  abbrev pub is_below : ℕ → A → Bool
  is_below t a = ltb (key a) t

  -- every row is above all that follow
  abbrev pub IsFalling : List A → Type 0
  IsFalling [] = Unit
  IsFalling (a ∷ xs) = All (λ x. key x < key a) xs × IsFalling xs

  -- no two rows have the same key
  abbrev pub AreDistinct : List A → Type 0
  AreDistinct [] = Unit
  AreDistinct (a ∷ xs) = All (λ x. ¬ (key x ≡ key a)) xs × AreDistinct xs

  -- placing a row commutes with the choice of the rows below a key
  select-place_desc-in :
      (t : ℕ) (a : A) (xs : List A)
      → ltb (key a) t ≡ true
      → place_desc key a (select (is_below t) xs) ≡ select (is_below t) (place_desc key a xs)
  unfolding select place_desc
  select-place_desc-in t a [] early = rw early refl
  select-place_desc-in t a (x ∷ xs) early =
      let ih = select-place_desc-in t a xs early in
      elim (Bool-cases (ltb (key x) (key a))) [
        | inl below ↦
            let low : ltb (key x) t ≡ true = ground arith in
            rw (low, select) (rw (below, place_desc) (rw (early, select) (rw (low, select) refl)))
        | inr above ↦ elim (Bool-cases (ltb (key x) t)) [
          | inl low ↦
              rw (low, select) (rw (above, place_desc) (rw (low, select) (ap (λ l. x ∷ l) ih)))
          | inr high ↦ rw (high, select) (rw (above, place_desc) (rw (high, select) ih))
        ]
      ]

  select-place_desc-out :
      (t : ℕ) (a : A) (xs : List A)
      → ltb (key a) t ≡ false
      → select (is_below t) xs ≡ select (is_below t) (place_desc key a xs)
  unfolding select place_desc
  select-place_desc-out t a [] late = rw late refl
  select-place_desc-out t a (x ∷ xs) late =
      let ih = select-place_desc-out t a xs late in
      elim (Bool-cases (ltb (key x) (key a))) [
        | inl below ↦ rw (below, place_desc) (rw (late, select) refl)
        | inr above ↦ rw (above, place_desc) (ap (λ l. if ltb (key x) t then x ∷ l else l) ih)
      ]

  pub order_desc-select :
      (p p' : A → Bool) (t : ℕ) (xs : List A)
      → ((a : A) → p' a ≡ (p a && ltb (key a) t))
      → order_desc key (select p' xs) ≡ select (is_below t) (order_desc key (select p xs))
  unfolding order_desc select
  order_desc-select p p' t [] same = refl
  order_desc-select p p' t (a ∷ xs) same =
      let ih = order_desc-select p p' t xs same in
      let meets : (c : Bool) → p a ≡ c → p' a ≡ (c && ltb (key a) t) =
        λ c h. same a ∙ ap (λ b. b && ltb (key a) t) h in
      elim (Bool-cases (p a)) [
        | inr other ↦ rw (other, select) (rw (meets false other, select) ih)
        | inl chosen ↦ elim (Bool-cases (ltb (key a) t)) [
          | inl early ↦
              rw (chosen, select)
                (rw (meets true chosen ∙ early, select)
                  (ap (place_desc key a) ih
                    ∙ select-place_desc-in t a (order_desc key (select p xs)) early))
          | inr late ↦
              rw (chosen, select)
                (rw (meets true chosen ∙ late, select)
                  (ih ∙ select-place_desc-out t a (order_desc key (select p xs)) late))
        ]
      ]

  select-whole : (t : ℕ) (xs : List A) → All (λ x. key x < t) xs → select (is_below t) xs ≡ xs
  unfolding select
  select-whole t [] hs = refl
  select-whole t (a ∷ xs) hs =
      rw (earlier (key a) t hs.0, select) (ap (λ l. a ∷ l) (select-whole t xs hs.1))

  -- the rows below the last one of a page are those that the page leaves out
  pub select-drop :
      (n : ℕ) (xs : List A) (a : A)
      → IsFalling xs
      → last (take n xs) ≡ some a
      → select (is_below (key a)) xs ≡ drop n xs
  unfolding select
  select-drop zero xs a falls h = absurd cc
  select-drop (suc n) [] a falls h = absurd cc
  select-drop (suc zero) (x ∷ xs) a falls h =
      subst (λ z. select (is_below (key z)) (x ∷ xs) ≡ xs) (some-injective h)
        (rw (irreflexive (key x), select) (select-whole (key x) xs falls.0))
  select-drop (suc (suc n)) (x ∷ []) a falls h =
      subst (λ z. select (is_below (key z)) (x ∷ []) ≡ []) (some-injective h)
        (rw (irreflexive (key x), select) refl)
  select-drop (suc (suc n)) (x ∷ y ∷ ys) a falls h =
      let later = last-All (λ z. key z < key x) (suc n) (y ∷ ys) a falls.0 h in
      rw (not_earlier (key x) (key a) later, select) (select-drop (suc n) (y ∷ ys) a falls.1 h)

  All-lower : (m n : ℕ) (xs : List A) → m < n → All (λ z. key z < m) xs → All (λ z. key z < n) xs
  All-lower m n [] lower hs = tt
  All-lower m n (z ∷ zs) lower hs = (ground arith, All-lower m n zs lower hs.1)

  place_desc-IsFalling :
      (a : A) (xs : List A)
      → All (λ x. ¬ (key x ≡ key a)) xs
      → IsFalling xs
      → IsFalling (place_desc key a xs)
  unfolding place_desc
  place_desc-IsFalling a [] apart falls = (tt, tt)
  place_desc-IsFalling a (x ∷ xs) apart falls = elim (Bool-cases (ltb (key x) (key a))) [
    | inl below ↦
        let lower : key x < key a = ground arith in
        rw (below, place_desc) ((lower, All-lower (key x) (key a) xs lower falls.0), falls)
    | inr above ↦
        let higher : key a < key x = highest (key a) (key x) apart.0 above in
        rw (above, place_desc)
          (
            All-place_desc (λ z. key z < key x) key a xs higher falls.0,
            place_desc-IsFalling a xs apart.1 falls.1,
          )
  ]
    where
      highest : (m n : ℕ) → ¬ (n ≡ m) → ltb n m ≡ false → m < n
      highest m n other above = ground arith

  pub order_desc-IsFalling : (xs : List A) → AreDistinct xs → IsFalling (order_desc key xs)
  unfolding order_desc
  order_desc-IsFalling [] apart = tt
  order_desc-IsFalling (a ∷ xs) apart =
      place_desc-IsFalling a (order_desc key xs)
        (All-order_desc (λ x. ¬ (key x ≡ key a)) key xs apart.0) (order_desc-IsFalling xs apart.1)
