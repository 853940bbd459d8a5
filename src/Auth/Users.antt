-- ===== src/Auth/Users.antt =====
-- The users of the rebuild: app-rebuild/internal/repository/user.go, as a `UserStore`. The table has its
-- rows behind the unique index on LOWER(address), and the next value of the sequence of ids.
pub mod Keeps
pub mod Accounts
use meme_launchpad_backend.Common.{
  ℕ, ◌+◌, String, Bool, Option, none, some, ◌∷◌, ◌==◌, string_eq, if◌then◌else◌,
}
use meme_launchpad_backend.Postgres.Table.{Table, lookup}
use meme_launchpad_backend.Postgres.Transaction.{Error, msg, Result, ok, err, broken}
use meme_launchpad_backend.Auth.{User, UserStore}

pub record Users : Type 0 where
  pub rows : Table String User
  pub next_id : ℕ
  pub reachable : Bool

abbrev pub taken : Error
taken = msg "duplicate key value violates unique constraint"

module _ (lower : String → String) where
  -- `FindByAddress`
  unfoldable pub find_user : String → Users → Result (Option User)
  find_user address u = if u.reachable then ok (lookup (lower address) u.rows) else err broken

  -- `Create`; an INSERT that the unique index refuses has taken its id from the sequence
  unfoldable pub create_user : String → String → Users → Result User × Users
  create_user address username u =
      if u.reachable
      then elim (lookup (lower address) u.rows) [
        | some _ ↦ (err taken, record u { next_id = u.next_id + 1 })
        | none ↦
            let user : User = record { id = u.next_id; user_address = address } in
            (ok user, record u { rows = (lower address, user) ∷ u.rows; next_id = u.next_id + 1 })
      ]
      else (err broken, u)

  abbrev pub user_repository : UserStore Users
  user_repository = record { find_by_address = find_user; create = create_user }
