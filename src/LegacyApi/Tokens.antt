-- ===== src/LegacyApi/Tokens.antt =====
-- Lists of tokens and favorites of the legacy API: apps/api/internal/logic/token/logic.go over
-- apps/api/internal/model/token.go. A token has the columns that the replies show; the share of the target
-- that a list shows, a quotient of big.Float, and the constants of a reply are left out.
pub mod Favorites
pub mod Lists
pub mod UserFavorites
pub mod Creation
pub mod Detail
pub mod Holders
use meme_launchpad_backend.Common.{
  ℕ, zero, suc, ◌+◌, ◌-◌, ◌*◌, ◌/◌, ◌%◌, String, Bool, true, false, ◌||◌, Option, none, some, List,
  [], ◌∷◌, length, ltb, ◌==◌, nat_eq, string_eq, pair_eq, if◌then◌else◌,
}
use meme_launchpad_backend.Fallible.{Error, msg, Result, ok, err}
use meme_launchpad_backend.Go.Strconv.{ℤ, pos, negsuc, negated, wrap_int}
use meme_launchpad_backend.Postgres.Table.{Table, lookup, insert_new, delete_row}
use meme_launchpad_backend.Postgres.Transaction.{World, next_fault, broken}
use meme_launchpad_backend.Postgres.Query.{query, paged, select, order_desc, limited}
use meme_launchpad_backend.LegacyApi.Wallet.{Response, failure, success}

pub record Token : Type 0 where
  pub id : ℕ
  pub name : String
  pub symbol : String
  pub logo : String
  pub banner : Option String
  pub description : Option String
  pub website : Option String
  pub twitter : Option String
  pub telegram : Option String
  pub contract_address : String
  pub creator_address : String
  pub launch_mode : ℕ
  pub launch_time : ℕ
  pub bnb_current : ℕ
  pub bnb_target : ℕ
  pub total_supply : ℕ
  pub status : ℕ
  pub hot : ℕ
  pub token_lv : ℕ
  pub token_rank : ℕ
  pub nonce : ℕ
  pub created_at : ℕ

-- a row of token_balances
pub record Balance : Type 0 where
  pub token_address : String
  pub holder_address : String
  pub balance : ℕ

-- a row of trades, of type 10 or 20, with its time in seconds
pub record Trade : Type 0 where
  pub token_address : String
  pub trade_type : ℕ
  pub bnb_amount : ℕ
  pub block_timestamp : ℕ

-- The favorites stand under (user_id, token_id) with their times.
pub record Tables : Type 0 where
  pub tokens : List Token
  pub users : List ℕ
  pub favorites : Table (ℕ × ℕ) ℕ
  pub trades : List Trade
  pub token_balances : List Balance

-- `PageResponse`, whose total number of pages has the sign of the size
pub record Page : Type 0 where
  pub page_no : ℤ
  pub page_size : ℤ
  pub total : ℕ
  pub total_page : ℤ
  pub result : List Token

-- what a handler does: it panics, or gives a reply
pub data Answer (A : Type 0) : Type 0 where
  panicked : Answer A
  answered : Response A → Answer A

-- one more, for the rest of a division
unfoldable pub plus_one : Bool → ℤ → ℤ
plus_one false z = z
plus_one true (pos n) = pos (n + 1)
plus_one true (negsuc zero) = pos 0
plus_one true (negsuc (suc n)) = negsuc n

-- `NewPageResponse`; `none` is the panic of a division by zero
unfoldable pub new_page_response : ℤ → ℤ → ℕ → List Token → Option Page
unfolding plus_one
new_page_response page_no page_size total items =
    let filled : ℤ → Page = λ pages. record {
      page_no = page_no;
      page_size = page_size;
      total = total;
      total_page = pages;
      result = items;
    } in
    elim page_size [
      | pos zero ↦ none
      | pos (suc n) ↦ some (filled (plus_one (ltb 0 (total % suc n)) (pos (total / suc n))))
      | negsuc n ↦ some (filled (plus_one (ltb 0 (total % suc n)) (negated (total / suc n))))
    ]

abbrev pub answer : Option Page → Answer Page
answer none = panicked
answer (some p) = answered (success p)

-- a number of the parameters, if it is above 0
abbrev pub above_zero : ℕ → ℤ → ℕ
above_zero default (pos zero) = default
above_zero default (pos (suc n)) = suc n
above_zero default (negsuc _) = default

abbrev pub has_mode : ℤ → Token → Bool
has_mode (pos zero) t = true
has_mode (pos (suc n)) t = t.launch_mode == suc n
has_mode (negsuc _) t = true

-- the column of ORDER BY ... DESC
abbrev pub sort_key : String → Token → ℕ
sort_key sort t =
    if sort == "hot" then t.hot else if sort == "marketCap" then t.bnb_current else t.created_at

-- `FindList` with the parameters pageNo, pageSize, sort and launchMode
unfoldable pub find_list :
    ℤ → ℤ → String → ℤ → World Tables → Result (List Token × ℕ) × World Tables
unfolding paged select order_desc wrap_int
find_list page_no page_size sort launch_mode w =
    let no = above_zero 1 page_no in
    let size = above_zero 10 page_size in
    paged (λ d. length (select (has_mode launch_mode) d.tokens))
      (λ d. order_desc (sort_key sort) (select (has_mode launch_mode) d.tokens)) (pos size)
      (wrap_int ((no - 1) * size)) w

unfoldable pub get_token_list : ℤ → ℤ → String → ℤ → World Tables → Answer Page × World Tables
unfolding find_list new_page_response
get_token_list page_no page_size sort launch_mode w =
    let (r, w') = find_list page_no page_size sort launch_mode w in
    (
      elim r [
        | err _ ↦ answered (failure 500 "failed to get tokens")
        | ok (tokens, total) ↦ answer (new_page_response page_no page_size total tokens)
      ],
      w',
    )

unfoldable pub get_trending_token : ℤ → ℤ → World Tables → Answer Page × World Tables
unfolding find_list new_page_response
get_trending_token page_no page_size w =
    let (r, w') = find_list page_no page_size "hot" (pos 0) w in
    (
      elim r [
        | err _ ↦ answered (failure 500 "failed to get trending tokens")
        | ok (tokens, total) ↦ answer (new_page_response page_no page_size total tokens)
      ],
      w',
    )

-- ORDER BY hot DESC, created_at DESC of the tokens in status 1 or 2, as two sorts that keep the order
unfoldable pub get_hot_pick : World Tables → Response (List Token) × World Tables
unfolding query select order_desc
get_hot_pick w =
    let (r, w') =
      query
        (λ d. limited (pos 10) (
          order_desc (λ t. t.hot)
            (order_desc (λ t. t.created_at)
              (select (λ t. t.status == 1 || t.status == 2) d.tokens))))
        w in
    (elim r [ err _ ↦ failure 500 "failed to get hot picks" | ok ts ↦ success ts ], w')
