-- ===== src/LegacyApi/Tokens/Lists.antt =====
-- The pages of the lists of tokens.
use mathlib.Core.List.{Permᴰ}
use native.Mathlib.Nat.{mod-lt, div-add-mod'}
use meme_launchpad_backend.Common.{
  ℕ, suc, ◌+◌, ◌-◌, ◌*◌, ◌/◌, ◌%◌, ◌^◌, ◌≤◌, ◌<◌, ◌≡◌, refl, sym, ◌∙◌, ap, String, Bool, true,
  false, List, [], length, ltb, arith, Bool-cases, inl, inr, if◌then◌else◌,
}
use meme_launchpad_backend.Fallible.{msg, Result, ok, err}
use meme_launchpad_backend.Go.Strconv.{ℤ, pos, wrap_int, wrap_int-same}
use meme_launchpad_backend.Postgres.Transaction.{World}
use meme_launchpad_backend.Postgres.Query.{query, paged, select, order_desc, take, drop}
use meme_launchpad_backend.Postgres.Query.Laws.{
  read_pages, read_pages-take, take-all, length-order_desc,
}
use meme_launchpad_backend.Postgres.Query.Cursor.{AreDistinct}
use meme_launchpad_backend.Postgres.Query.Ties.{select-perm, order_desc-perm}
use meme_launchpad_backend.LegacyApi.Wallet.{failure, success}
use meme_launchpad_backend.LegacyApi.Tokens.{
  Token, Tables, Page, Answer, panicked, answered, plus_one, new_page_response, has_mode, sort_key,
  find_list, get_token_list,
}

abbrev pub healthy : Tables → World Tables
healthy d = record { db = d; faults = [] }

-- a quotient of natural numbers, rounded up
abbrev pub pages_of : ℕ → ℕ → ℕ
pages_of total size = total / size + (if ltb 0 (total % size) then 1 else 0)

-- the tokens of an answer
abbrev pub shown : Answer Page → Result (List Token)
shown (answered (success p)) = ok p.result
shown (answered (failure code text)) = err (msg text)
shown panicked = err (msg "runtime error: integer divide by zero")

pages_of-room : (total size : ℕ) → 0 < size → total ≤ pages_of total size * size
pages_of-room total size some_ = elim (Bool-cases (ltb 0 (total % size))) [
  | inl rest ↦
      rw rest (
        over (total / size) size (total % size) total (div-add-mod' total size)
          (mod-lt total some_))
  | inr none_left ↦
      rw none_left
        (exact (total / size) size (total % size) total (div-add-mod' total size) (ground arith))
]
  where
    over : (q s r t : ℕ) → q * s + r ≡ t → r < s → t ≤ (q + 1) * s
    over q s r t h k = grind arith

    exact : (q s r t : ℕ) → q * s + r ≡ t → r ≤ 0 → t ≤ (q + 0) * s
    exact q s r t h k = grind arith

offset_below : (i total size : ℕ) → 0 < size → i < pages_of total size → i * size ≤ total
offset_below i total size some_ low =
    below i (total / size) size (total % size) total (div-add-mod' total size)
      (at_most (ltb 0 (total % size)) low)
  where
    at_most : (b : Bool) → i < total / size + (if b then 1 else 0) → i ≤ total / size
    at_most true h = omega (arith, h)
    at_most false h = omega (arith, h)

    below : (i q s r t : ℕ) → q * s + r ≡ t → i ≤ q → i * s ≤ t
    below i q s r t h k = grind arith

module _ (sort : String) (mode : ℤ) (d : Tables) where
  -- the tokens that a list is about, in its order
  abbrev pub chosen : List Token
  chosen = order_desc (sort_key sort) (select (has_mode mode) d.tokens)

  abbrev pub number : ℕ
  number = length (select (has_mode mode) d.tokens)

  get_token_list-page :
      (i n : ℕ)
      → i * suc n < 2 ^ 63
      → get_token_list (pos (suc i)) (pos (suc n)) sort mode (healthy d) ≡ (
        answered (
            success (record {
              page_no = pos (suc i);
              page_size = pos (suc n);
              total = number;
              total_page = plus_one (ltb 0 (number % suc n)) (pos (number / suc n));
              result = take (suc n) (drop (i * suc n) chosen);
            })),
        healthy d,
      )
  unfolding get_token_list find_list new_page_response paged query
  get_token_list-page i n low = rw (ap wrap_int (back i n) ∙ wrap_int-same (i * suc n) low) refl
    where
      back : (i n : ℕ) → (suc i - 1) * suc n ≡ i * suc n
      back i n = ap (λ j. j * suc n) (less i)
        where
          less : (i : ℕ) → suc i - 1 ≡ i
          less i = omega arith

  -- the total number of pages of a list
  plus_one-pages :
      (total n : ℕ)
      → plus_one (ltb 0 (total % suc n)) (pos (total / suc n)) ≡ pos (pages_of total (suc n))
  unfolding plus_one
  plus_one-pages total n = elim (Bool-cases (ltb 0 (total % suc n))) [
    | inl rest ↦ rw rest refl
    | inr none_left ↦ rw none_left (ap pos (omega arith))
  ]

module _ (sort : String) (mode : ℤ) (d : Tables) where
  -- the tables as the statements of a request scan them
  abbrev pub scanned : List Token → Tables
  scanned tokens = record d { tokens = tokens }

  -- With no failing statement, no two of the tokens of the launch mode that is asked for equal in the
  -- column of the order that is asked for, and a size of at least 1, every page of a list of tokens
  -- reports the number of these tokens and the number of pages; and the pages up to that number, one after
  -- another, are these tokens in that order, when there are fewer than 2^63 of them. The statements of
  -- each request may scan the tokens in an order of their own.
  pub get_token_list-pages :
      (scan : ℕ → List Token) (i n : ℕ)
      → ((j : ℕ) → Permᴰ d.tokens (scan j))
      → AreDistinct (sort_key sort) (select (has_mode mode) d.tokens)
      → i < pages_of (number sort mode d) (suc n)
      → (number sort mode d) < 2 ^ 63
      → ((get_token_list (pos (suc i)) (pos (suc n)) sort mode (healthy (scanned (scan i)))).0
          ≡ answered (
              success (record {
                page_no = pos (suc i);
                page_size = pos (suc n);
                total = (number sort mode d);
                total_page = pos (pages_of (number sort mode d) (suc n));
                result = take (suc n) (drop (i * suc n) (chosen sort mode d));
              })))
        × (read_pages
              (λ j.
                shown
                  (get_token_list
                    (pos (suc j))
                    (pos (suc n))
                    sort
                    mode
                    (healthy (scanned (scan j)))).0)
              (pages_of (number sort mode d) (suc n))
            ≡ ok (chosen sort mode d))
  get_token_list-pages scan i n scans distinct within few = (
    page i within,
    read_pages-take _ (suc n) (chosen sort mode d) (pages_of (number sort mode d) (suc n))
          (λ j low. ap shown (page j low))
        ∙ ap ok (
            take-all (pages_of (number sort mode d) (suc n) * suc n) (chosen sort mode d) (
              omega (
                arith,
                length-order_desc (sort_key sort) (select (has_mode mode) d.tokens),
                pages_of-room (number sort mode d) (suc n) (omega arith),
              ))),
  )
    where
      small : (j : ℕ) → j < pages_of (number sort mode d) (suc n) → j * suc n < 2 ^ 63
      small j low =
          let h = offset_below j (number sort mode d) (suc n) (omega arith) low in
          omega (arith, h, few)

      -- the tokens of the mode, in order, of any scan
      ordered :
          (j : ℕ)
          → order_desc (sort_key sort) (select (has_mode mode) (scan j)) ≡ (chosen sort mode d)
      ordered j =
          sym (order_desc-perm (sort_key sort) (select-perm (has_mode mode) (scans j)) distinct)

      counted : (j : ℕ) → length (select (has_mode mode) (scan j)) ≡ (number sort mode d)
      counted j =
          sym (length-order_desc (sort_key sort) (select (has_mode mode) (scan j)))
          ∙ ap (λ l. length l) (ordered j)
          ∙ length-order_desc (sort_key sort) (select (has_mode mode) d.tokens)

      reply : ℕ → ℤ → List Token → ℕ → Answer Page
      reply total total_page rows j = answered (
          success (record {
            page_no = pos (suc j);
            page_size = pos (suc n);
            total = total;
            total_page = total_page;
            result = take (suc n) (drop (j * suc n) rows);
          }))

      page :
          (j : ℕ)
          → j < pages_of (number sort mode d) (suc n)
          → (get_token_list (pos (suc j)) (pos (suc n)) sort mode (healthy (scanned (scan j)))).0
            ≡ reply
                (number sort mode d)
                (pos (pages_of (number sort mode d) (suc n)))
                (chosen sort mode d)
                j
      page j low =
          ap (λ o. o.0) (get_token_list-page sort mode (scanned (scan j)) j n (small j low))
          ∙ ap
              (λ m.
                reply m (plus_one (ltb 0 (m % suc n)) (pos (m / suc n)))
                  (order_desc (sort_key sort) (select (has_mode mode) (scan j))) j)
              (counted j)
          ∙ ap
              (λ rows.
                reply (number sort mode d)
                  (plus_one (ltb 0 ((number sort mode d) % suc n))
                    (pos ((number sort mode d) / suc n)))
                  rows j)
              (ordered j)
          ∙ ap (λ z. reply (number sort mode d) z (chosen sort mode d) j)
              (plus_one-pages sort mode d (number sort mode d) n)

-- With no failing statement, a request for a list of tokens with the size 0 panics, whatever its page
-- below 2^59, its order and its launch mode are.
pub get_token_list-panics :
    (sort : String) (mode : ℤ) (d : Tables) (i : ℕ)
    → i < 2 ^ 59
    → (get_token_list (pos (suc i)) (pos 0) sort mode (healthy d)).0 ≡ panicked
unfolding get_token_list find_list new_page_response paged query
get_token_list-panics sort mode d i low = rw (exact i low, get_token_list) refl
  where
    exact : (i : ℕ) → i < 2 ^ 59 → wrap_int ((suc i - 1) * 10) ≡ pos ((suc i - 1) * 10)
    exact i low = wrap_int-same ((suc i - 1) * 10) (omega (arith, low))
