-- ===== src/Postgres/Query/Ties.antt =====
-- What the order in which a query scans its rows means for their order.
use mathlib.Core.List.{Permᴰ}
use mathlib.Core.List.Permᴰ
use mathlib.Core.Path.{subst}
use meme_launchpad_backend.Common.{
  ℕ, ◌<◌, ◌≡◌, refl, sym, ◌∙◌, ap, Bool, true, false, List, [], ◌∷◌, ◌++◌, All, arith, ltb,
  Bool-cases, inl, inr, if◌then◌else◌,
}
use meme_launchpad_backend.Postgres.Query.{select, place_desc, order_desc}
use meme_launchpad_backend.Postgres.Query.Cursor.{AreDistinct, earlier, not_earlier}

module _ {A : Type 0} where
  pub All-perm : (P : A → Type 0) {xs ys : List A} → Permᴰ xs ys → All P xs → All P ys
  All-perm P Permᴰ.nil h = h
  All-perm P (Permᴰ.cons e p) (h, hs) = (subst P e h, All-perm P p hs)
  All-perm P (Permᴰ.swap e f) (h, (k, hs)) = (subst P f k, (subst P e h, hs))
  All-perm P (Permᴰ.trans p q) h = All-perm P q (All-perm P p h)

  pub append-perm :
      {xs xs' ys ys' : List A} → Permᴰ xs xs' → Permᴰ ys ys' → Permᴰ (xs ++ ys) (xs' ++ ys')
  append-perm {xs' = xs'} {ys = ys} p q =
      Permᴰ.trans (Permᴰ.append_right ys p) (Permᴰ.append_left xs' q)

  kept-swap :
      (a b : A) (l : List A) (s t : Bool)
      → Permᴰ
          (let rest = if t then b ∷ l else l in if s then a ∷ rest else rest)
          (let rest = if s then a ∷ l else l in if t then b ∷ rest else rest)
  kept-swap a b l true true = Permᴰ.swap refl refl
  kept-swap a b l true false = Permᴰ.refl (a ∷ l)
  kept-swap a b l false true = Permᴰ.refl (b ∷ l)
  kept-swap a b l false false = Permᴰ.refl l

  pub select-perm :
      (test : A → Bool) {xs ys : List A} → Permᴰ xs ys → Permᴰ (select test xs) (select test ys)
  unfolding select
  select-perm test Permᴰ.nil = Permᴰ.nil
  select-perm test (Permᴰ.cons {a} {b} e p) = elim (Bool-cases (test a)) [
    | inl chosen ↦
        rw (chosen, select)
          (rw (ap test (sym e) ∙ chosen, select) (Permᴰ.cons e (select-perm test p)))
    | inr left ↦ rw (left, select) (rw (ap test (sym e) ∙ left, select) (select-perm test p))
  ]
  select-perm test (Permᴰ.swap {a} {b} {a'} {b'} {l} e f) =
      subst (λ c. Permᴰ (select test (a ∷ b ∷ l)) (select test (c ∷ b' ∷ l))) f
        (subst (λ c. Permᴰ (select test (a ∷ b ∷ l)) (select test (b ∷ c ∷ l))) e
          (kept-swap a b (select test l) (test a) (test b)))
  select-perm test (Permᴰ.trans p q) = Permᴰ.trans (select-perm test p) (select-perm test q)

module _ {A : Type 0} (key : A → ℕ) where
  -- two rows with different keys can be placed in either order
  place_desc-above :
      (a b : A) (xs : List A)
      → key b < key a
      → place_desc key a (place_desc key b xs) ≡ place_desc key b (place_desc key a xs)
  unfolding place_desc
  place_desc-above a b [] above =
      rw ((earlier (key b) (key a) above), place_desc) (rw (not_earlier (key a) (key b) above) refl)
  place_desc-above a b (x ∷ xs) above = elim (Bool-cases (ltb (key x) (key b))) [
    | inl low ↦
        rw (low, place_desc)
          (rw (earlier (key b) (key a) above, place_desc)
            (rw (lower (key x) (key b) (key a) low above, place_desc)
              (rw (not_earlier (key a) (key b) above, place_desc) (rw low refl))))
    | inr high ↦ elim (Bool-cases (ltb (key x) (key a))) [
      | inl between ↦
          rw (high, place_desc)
            (rw (between, place_desc)
              (rw (not_earlier (key a) (key b) above, place_desc) (rw high refl)))
      | inr highest ↦
          rw (high, place_desc)
            (rw (highest, place_desc)
              (rw (high, place_desc) (ap (λ l. x ∷ l) (place_desc-above a b xs above))))
    ]
  ]
    where
      lower : (k m n : ℕ) → ltb k m ≡ true → m < n → ltb k n ≡ true
      lower k m n h above = ground arith

  place_desc-swap :
      (a b : A) (xs : List A)
      → ¬ (key a ≡ key b)
      → place_desc key a (place_desc key b xs) ≡ place_desc key b (place_desc key a xs)
  place_desc-swap a b xs apart = elim (Bool-cases (ltb (key b) (key a))) [
    | inl above ↦ place_desc-above a b xs (ground arith)
    | inr below ↦ sym (place_desc-above b a xs (other (key a) (key b) apart below))
  ]
    where
      other : (m n : ℕ) → ¬ (m ≡ n) → ltb n m ≡ false → m < n
      other m n apart below = ground arith

  AreDistinct-perm : {xs ys : List A} → Permᴰ xs ys → AreDistinct key xs → AreDistinct key ys
  AreDistinct-perm Permᴰ.nil h = h
  AreDistinct-perm (Permᴰ.cons {a} {b} {l₁ = xs} {l₂ = ys} e p) (h, hs) =
      (All-perm _ p (subst (λ c. All (λ x. ¬ (key x ≡ key c)) xs) e h), AreDistinct-perm p hs)
  AreDistinct-perm (Permᴰ.swap {a} {b} {a'} {b'} {l} e f) ((n, h), (k, hs)) = (
    (
      λ same. n (ap key f ∙ sym same ∙ ap key (sym e)),
      subst (λ c. All (λ x. ¬ (key x ≡ key c)) l) f k,
    ),
    (subst (λ c. All (λ x. ¬ (key x ≡ key c)) l) e h, hs),
  )
  AreDistinct-perm (Permᴰ.trans p q) h = AreDistinct-perm q (AreDistinct-perm p h)

  -- Rows with distinct keys have one order, however they are scanned.
  pub order_desc-perm :
      {xs ys : List A} → Permᴰ xs ys → AreDistinct key xs → order_desc key xs ≡ order_desc key ys
  unfolding order_desc
  order_desc-perm Permᴰ.nil h = refl
  order_desc-perm (Permᴰ.cons {a} {b} {l₁ = xs} {l₂ = ys} e p) (h, hs) =
      ap (place_desc key a) (order_desc-perm p hs)
      ∙ ap (λ c. place_desc key c (order_desc key ys)) e
  order_desc-perm (Permᴰ.swap {a} {b} {a'} {b'} {l} e f) ((n, h), (k, hs)) =
      place_desc-swap a b (order_desc key l) (λ same. n (sym same))
      ∙ ap (λ c. place_desc key c (place_desc key a (order_desc key l))) f
      ∙ ap (λ c. place_desc key a' (place_desc key c (order_desc key l))) e
  order_desc-perm (Permᴰ.trans p q) h =
      order_desc-perm p h ∙ order_desc-perm q (AreDistinct-perm p h)
