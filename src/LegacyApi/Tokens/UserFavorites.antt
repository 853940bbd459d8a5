-- ===== src/LegacyApi/Tokens/UserFavorites.antt =====
-- The favorites of users: `FavoriteToken`, `UnfavoriteToken` and `GetMyFavoriteTokens` of
-- apps/api/internal/logic/token/logic.go with the queries of apps/api/internal/model/token.go.
use meme_launchpad_backend.Common.{
  ℕ, ◌-◌, ◌*◌, Bool, true, false, Option, none, some, List, [], ◌∷◌, length, ltb, ◌==◌, nat_eq,
  string_eq, pair_eq, if◌then◌else◌,
}
use meme_launchpad_backend.Fallible.{Error, msg, Result, ok, err}
use meme_launchpad_backend.Go.Strconv.{ℤ, pos, wrap_int}
use meme_launchpad_backend.Postgres.Table.{Table, lookup, insert_new, delete_row}
use meme_launchpad_backend.Postgres.Transaction.{World, next_fault, broken}
use meme_launchpad_backend.Postgres.Query.{query, paged, select, order_desc}
use meme_launchpad_backend.LegacyApi.Wallet.{Response, failure, success}
use meme_launchpad_backend.LegacyApi.Tokens.{
  Token, Tables, Page, Answer, answered, answer, above_zero, new_page_response,
}

unfoldable pub has_id : ℕ → List ℕ → Bool
has_id n [] = false
has_id n (m ∷ ms) = let rest = has_id n ms in if m == n then true else rest

unfoldable pub find_token : ℕ → List Token → Option Token
find_token n [] = none
find_token n (t ∷ ts) = let rest = find_token n ts in if t.id == n then some t else rest

abbrev pub exists_token : ℕ → List Token → Bool
exists_token n ts = elim (find_token n ts) [ none ↦ false | some _ ↦ true ]

abbrev pub not_referenced : Error
not_referenced = msg "violates foreign key constraint"

-- INSERT ... ON CONFLICT (user_id, token_id) DO NOTHING, at a time
unfoldable pub insert_favorite : ℕ → ℕ → ℕ → Tables → Result Tables
unfolding insert_new lookup has_id find_token
insert_favorite now user token d = elim (lookup (user, token) d.favorites) [
  | some _ ↦ ok d
  | none ↦
      if has_id user d.users
      then (if exists_token token d.tokens
          then ok (record d { favorites = insert_new (user, token) now d.favorites })
          else err not_referenced)
      else err not_referenced
]

-- one statement that writes, outside a transaction
unfoldable pub execute : (Tables → Result Tables) → World Tables → Result (Unit {0}) × World Tables
execute statement w =
    let (bad, rest) = next_fault w.faults in
    if bad then (err broken, record w { faults = rest }) else elim (statement w.db) [
      | err e ↦ (err e, record w { faults = rest })
      | ok d ↦ (ok tt, record { db = d; faults = rest })
    ]

unfoldable pub add_favorite : ℕ → ℕ → ℕ → World Tables → Result (Unit {0}) × World Tables
unfolding execute insert_favorite
add_favorite now user token w = execute (insert_favorite now user token) w

unfoldable pub remove_favorite : ℕ → ℕ → World Tables → Result (Unit {0}) × World Tables
unfolding execute delete_row
remove_favorite user token w =
    execute (λ d. ok (record d { favorites = delete_row (user, token) d.favorites })) w

-- `IsFavorite`, a count under a unique constraint
unfoldable pub is_favorite : ℕ → ℕ → World Tables → Result Bool × World Tables
unfolding query lookup
is_favorite user token w =
    query (λ d. ok (elim (lookup (user, token) d.favorites) [ none ↦ false | some _ ↦ true ])) w

unfoldable pub favorite_token : ℕ → ℕ → ℕ → World Tables → Response (Unit {0}) × World Tables
unfolding add_favorite
favorite_token now user token w =
    if user == 0
    then (failure 401 "unauthorized", w)
    else let (r, w') = add_favorite now user token w in
      (elim r [ err _ ↦ failure 500 "failed to add favorite" | ok _ ↦ success tt ], w')

unfoldable pub unfavorite_token : ℕ → ℕ → World Tables → Response (Unit {0}) × World Tables
unfolding remove_favorite
unfavorite_token user token w =
    if user == 0
    then (failure 401 "unauthorized", w)
    else let (r, w') = remove_favorite user token w in
      (elim r [ err _ ↦ failure 500 "failed to remove favorite" | ok _ ↦ success tt ], w')

-- the tokens of a join with the rows of favorites
unfoldable pub joined : List Token → Table (ℕ × ℕ) ℕ → List Token
unfolding find_token
joined ts [] = []
joined ts (((_, token), _) ∷ rows) =
    let rest = joined ts rows in elim (find_token token ts) [ none ↦ rest | some t ↦ t ∷ rest ]

-- a page number that is at least 1, and a page size from 1 to 100
abbrev pub at_least_one : ℤ → ℕ
at_least_one z = above_zero 1 z

abbrev pub bounded_size : ℤ → ℕ
bounded_size z = let n = above_zero 20 z in if ltb 100 n then 20 else n

unfoldable pub get_my_favorite_tokens : ℕ → ℤ → ℤ → World Tables → Answer Page × World Tables
unfolding paged select order_desc joined new_page_response wrap_int
get_my_favorite_tokens user page_no page_size w =
    if user == 0
    then (answered (failure 401 "unauthorized"), w)
    else let no = at_least_one page_no in
      let size = bounded_size page_size in
      let own : Tables → Table (ℕ × ℕ) ℕ = λ d. select (λ r. r.0.0 == user) d.favorites in
      let (r, w') =
        paged (λ d. length (joined d.tokens (own d)))
          (λ d. joined d.tokens (order_desc (λ r. r.1) (own d))) (pos size)
          (wrap_int ((no - 1) * size)) w in
      (
        elim r [
          | err _ ↦ answered (failure 500 "database error")
          | ok (tokens, total) ↦ answer (new_page_response (pos no) (pos size) total tokens)
        ],
        w',
      )
