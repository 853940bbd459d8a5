-- ===== src/Gateway/Repository.antt =====
-- The token repository of the rebuild, app-rebuild/internal/repository/token.go, as a `TokenReader` over
-- the rows of the table tokens in the columns of `Token`.
pub mod Pages
pub mod Empty
use meme_launchpad_backend.Common.{
  String, Bool, Option, none, some, List, [], ◌∷◌, ◌==◌, string_eq, if◌then◌else◌,
}
use meme_launchpad_backend.Fallible.{wrap, Result, ok, err}
use meme_launchpad_backend.Go.Strconv.{ℤ}
use meme_launchpad_backend.Postgres.Transaction.{broken}
use meme_launchpad_backend.Postgres.Query.{select, order_desc, page}
use meme_launchpad_backend.Gateway.{Slice, Token, TokenReader}

pub record TokenTable : Type 0 where
  pub rows : List Token
  pub reachable : Bool

-- `collectTokens`, which appends the rows to a nil slice
abbrev pub collect_tokens : List Token → Slice Token
collect_tokens [] = none
collect_tokens (t ∷ ts) = some (t ∷ ts)

-- the row of `QueryRow`, where `none` is pgx.ErrNoRows
abbrev pub first_row : List Token → Option Token
first_row [] = none
first_row (t ∷ _) = some t

module _ (lower : String → String) (table : TokenTable) where
  unfoldable pub list_rows : ℤ → ℤ → Result (Slice Token)
  unfolding order_desc
  list_rows limit offset =
      if table.reachable
      then elim (page limit offset (order_desc (λ t. t.created_at) table.rows)) [
        | err e ↦ err e
        | ok rows ↦ ok (collect_tokens rows)
      ]
      else err (wrap "list tokens" broken)

  unfoldable pub find_row : String → Result (Option Token)
  unfolding select
  find_row address =
      if table.reachable
      then ok (first_row (select (λ t. lower t.contract_address == lower address) table.rows))
      else err broken

  abbrev pub token_repository : TokenReader
  token_repository = record { list = list_rows; find_by_address = find_row }
