-- ===== src/Gateway/Repository/Pages.antt =====
-- The pages of the tokens over the token service.
use mathlib.Core.List.{Permᴰ}
use mathlib.Core.Path.{subst}
use meme_launchpad_backend.Common.{
  ℕ, ◌+◌, ◌-◌, ◌*◌, ◌^◌, ◌≤◌, ◌<◌, ◌≡◌, refl, sym, ◌∙◌, ap, String, true, some, List, [], ◌∷◌, All,
  length, arith, Bool-cases, inl, inr, ◌==◌, string_eq, some-injective,
}
use meme_launchpad_backend.Fallible.{Result, Result-cases, ok, err, ok-injective}
use meme_launchpad_backend.Go.Strconv.{ℤ, pos, negsuc}
use meme_launchpad_backend.Postgres.Query.{select, order_desc, page, take, drop}
use meme_launchpad_backend.Postgres.Query.Laws.{
  read_pages, read_pages-take, take-all, length-order_desc, All-take, All-drop, All-select,
  All-order_desc,
}
use meme_launchpad_backend.Postgres.Query.Cursor.{AreDistinct}
use meme_launchpad_backend.Postgres.Query.Ties.{All-perm, order_desc-perm}
use meme_launchpad_backend.Gateway.{Slice, items_of, Token}
use meme_launchpad_backend.Gateway.Messages.RoundTrip.{IsPortable}
use meme_launchpad_backend.Gateway.Parity.Tokens.{
  ArePortable, remote_tokens, same_or_failure, list-remote,
}
use meme_launchpad_backend.Gateway.Repository.{
  TokenTable, collect_tokens, first_row, list_rows, find_row, token_repository,
}

IsPortable-first_row :
    (ts : List Token) (t : Token) → All IsPortable ts → first_row ts ≡ some t → IsPortable t
IsPortable-first_row [] t h k = absurd cc
IsPortable-first_row (u ∷ ts) t (p, h) k = subst IsPortable (some-injective k) p

IsPortable-page :
    (limit offset : ℤ) (rows items : List Token)
    → All IsPortable rows
    → page limit offset rows ≡ ok items
    → All IsPortable items
IsPortable-page (pos n) (pos m) rows items h k =
    subst (λ ts. All IsPortable ts) (ok-injective k)
      (All-take IsPortable n (drop m rows) (All-drop IsPortable m rows h))
IsPortable-page (negsuc n) (pos m) rows items h k = absurd cc
IsPortable-page limit (negsuc m) rows items h k = absurd cc

pub items_of-collect_tokens : (rows : List Token) → items_of (collect_tokens rows) ≡ rows
items_of-collect_tokens [] = refl
items_of-collect_tokens (t ∷ ts) = refl

-- the items of a page
abbrev pub all_items : Result (Slice Token) → Result (List Token)
all_items (ok items) = ok (items_of items)
all_items (err e) = err e

module _ (lower : String → String) (table : TokenTable) (portable : All IsPortable table.rows) where
  -- the rows, the latest first
  abbrev pub latest_tokens : List Token
  latest_tokens = order_desc (λ t. t.created_at) table.rows

  -- A repository whose rows can be held by messages gives such rows only.
  pub token_repository-ArePortable : ArePortable (token_repository lower table)
  unfolding list_rows find_row
  token_repository-ArePortable = record { listed = listed; found = found }
    where
      listed :
          (limit offset : ℤ) (items : Slice Token)
          → (token_repository lower table).list limit offset ≡ ok items
          → All IsPortable (items_of items)
      listed limit offset items h = elim (Bool-cases table.reachable) [
        | inr down ↦ let k = rw (down, list_rows) at h in absurd cc
        | inl up ↦ elim (Result-cases (page limit offset latest_tokens)) [
          | inr (e, bad) ↦ let k = rw (bad, list_rows) at (rw (up, list_rows) at h) in absurd cc
          | inl (rows, good) ↦
              let same = ok-injective (rw (good, list_rows) at (rw (up, list_rows) at h)) in
              subst (λ ts. All IsPortable ts)
                (sym (items_of-collect_tokens rows) ∙ ap (λ ts. items_of ts) same)
                (IsPortable-page limit offset latest_tokens rows
                  (All-order_desc IsPortable (λ t. t.created_at) table.rows portable) good)
        ]
      ]

      found :
          (address : String) (t : Token)
          → (token_repository lower table).find_by_address address ≡ ok (some t)
          → IsPortable t
      found address t h = elim (Bool-cases table.reachable) [
        | inr down ↦ let k = rw (down, find_row) at h in absurd cc
        | inl up ↦
            IsPortable-first_row
              (select (λ t. lower t.contract_address == lower address) table.rows) t
              (All-select IsPortable (λ t. lower t.contract_address == lower address) table.rows
                portable)
              (ok-injective (rw (up, find_row) at h))
      ]

  pub page-remote :
      (n i : ℕ)
      → table.reachable ≡ true
      → 0 < n
      → n < 101
      → i + 1 < 2 ^ 31
      → (remote_tokens (token_repository lower table)).list (pos n) (pos (i * n))
        ≡ ok (some (take n (drop (i * n) latest_tokens)))
  unfolding list_rows
  page-remote n i up some_ few low =
      let same = ap (λ j. j * n) (back i) in
      let here : (token_repository lower table).list (pos n) (pos ((i + 1 - 1) * n))
          ≡ ok (collect_tokens (take n (drop ((i + 1 - 1) * n) latest_tokens))) =
        rw (up, list_rows) refl in
      ap (λ j. (remote_tokens (token_repository lower table)).list (pos n) (pos j)) (sym same)
      ∙ list-remote (token_repository lower table) token_repository-ArePortable (i + 1) n
          (omega arith) low some_ few
      ∙ ap same_or_failure here
      ∙ ap (λ ts. ok (some ts))
          (items_of-collect_tokens (take n (drop ((i + 1 - 1) * n) latest_tokens)))
      ∙ ap (λ j. ok (some (take n (drop j latest_tokens)))) same
    where
      back : (i : ℕ) → i + 1 - 1 ≡ i
      back i = omega arith

module _ (lower : String → String) (table : TokenTable) (portable : All IsPortable table.rows) where
  -- the table as a query scans it
  abbrev pub scanned : List Token → TokenTable
  scanned rows = record { rows = rows; reachable = table.reachable }

  -- While the database can be reached, and no two tokens were created at the same time, the first k pages
  -- of n tokens that the token service gives, one after another, are all tokens, the latest first, when
  -- there are at most k * n of them, n is from 1 to 100, k is below 2^31, and all rows fit into messages.
  -- The query of each page may scan the rows in an order of its own.
  pub remote_tokens-pages :
      (scan : ℕ → List Token) (n k : ℕ)
      → ((i : ℕ) → Permᴰ table.rows (scan i))
      → AreDistinct (λ t. t.created_at) table.rows
      → table.reachable ≡ true
      → 0 < n
      → n < 101
      → k < 2 ^ 31
      → length table.rows ≤ k * n
      → read_pages
          (λ i. all_items (
            (remote_tokens (token_repository lower (scanned (scan i)))).list (pos n) (pos (i * n))))
          k
        ≡ ok (latest_tokens lower table portable)
  remote_tokens-pages scan n k scans distinct up some_ few low room =
      read_pages-take _ n (latest_tokens lower table portable) k (λ i below.
        ap all_items (
          page-remote lower (scanned (scan i)) (All-perm IsPortable (scans i) portable) n i up some_
            few (omega (arith, below, low)))
        ∙ ap (λ rows. ok (take n (drop (i * n) rows)))
            (sym (order_desc-perm (λ t. t.created_at) (scans i) distinct)))
      ∙ ap ok (
          take-all (k * n) (latest_tokens lower table portable)
            (omega (arith, length-order_desc (λ t. t.created_at) table.rows, room)))
