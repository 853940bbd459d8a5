-- ===== src/LegacyApi/Events/Distinct.antt =====
-- COUNT(DISTINCT ...) of texts with one more among them.
use meme_launchpad_backend.Common.{
  ℕ, ◌+◌, ◌≡◌, refl, sym, ◌∙◌, ap, String, Bool, true, false, Bool-cases, inl, inr, List, [], ◌∷◌,
  ◌++◌, ◌==◌, string_eq, arith, if◌then◌else◌,
}
use meme_launchpad_backend.LegacyApi.Events.{has, count_distinct}

has-between :
    (s t : String) (xs ys : List String)
    → has s (xs ++ (t ∷ ys)) ≡ (if s == t then true else has s (xs ++ ys))
unfolding has
has-between s t [] ys = refl
has-between s t (x ∷ xs) ys = elim (Bool-cases (s == x)) [
  | inl same ↦ rw (same, has) (elim (Bool-cases (s == t)) [ inl h ↦ rw h refl | inr h ↦ rw h refl ])
  | inr other ↦ rw (other, has) (has-between s t xs ys)
]

pub count_distinct-between :
    (t : String) (xs ys : List String)
    → count_distinct (xs ++ (t ∷ ys))
      ≡ count_distinct (xs ++ ys) + (if has t (xs ++ ys) then 0 else 1)
unfolding count_distinct has
count_distinct-between t [] ys = elim (Bool-cases (has t ys)) [
  | inl known ↦ rw known (omega arith)
  | inr new ↦ rw new refl
]
count_distinct-between t (x ∷ xs) ys =
    let ih = count_distinct-between t xs ys in
    elim (Bool-cases (x == t)) [
      | inl same ↦
          let e : x ≡ t = (string_eq.same_iff x t).0 same in
          let back : (t == x) ≡ true = (string_eq.same_iff t x).1 (sym e) in
          let listed : has x (xs ++ (t ∷ ys)) ≡ true =
            has-between x t xs ys ∙ ap (λ b. if b then true else has x (xs ++ ys)) same in
          let alike : has x (xs ++ ys) ≡ has t (xs ++ ys) = ap (λ z. has z (xs ++ ys)) e in
          rw listed (rw (back, has) (rw alike (known (has t (xs ++ ys)) _ _ ih)))
      | inr other ↦
          let apart : (t == x) ≡ false = elim (Bool-cases (t == x)) [
            | inl h ↦
                let k = (string_eq.same_iff x t).1 (sym ((string_eq.same_iff t x).0 h)) in absurd cc
            | inr h ↦ h
          ] in
          let listed : has x (xs ++ (t ∷ ys)) ≡ has x (xs ++ ys) =
            has-between x t xs ys ∙ ap (λ b. if b then true else has x (xs ++ ys)) other in
          rw listed (rw (apart, has) (new (has x (xs ++ ys)) _ _ _ ih))
    ]
  where
    known : (q : Bool) (m n : ℕ) → m ≡ n + (if q then 0 else 1) → m ≡ (if q then n else n + 1) + 0
    known true m n h = omega (arith, h)
    known false m n h = omega (arith, h)

    new :
        (p : Bool) (m n k : ℕ) → m ≡ n + k → (if p then m else m + 1) ≡ (if p then n else n + 1) + k
    new true m n k h = h
    new false m n k h = omega (arith, h)
