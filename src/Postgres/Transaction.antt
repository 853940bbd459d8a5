-- ===== src/Postgres/Transaction.antt =====
-- pgx transactions. A statement fails when the database says so (`faults`, one entry for each
-- statement in turn), and then all later ones fail until a rollback. A transaction that does not
-- commit leaves the tables as they were; `Commit` of a failed transaction is an error.
pub mod Laws
use meme_launchpad_backend.Common.{Bool, true, false, String, List, [], ◌∷◌, if◌then◌else◌}
pub use meme_launchpad_backend.Fallible.{Error, msg, wrap, Result, ok, err, wrapped, Result-cases}

pub record Tx (D : Type 0) : Type 0 where
  pub tables : D
  pub aborted : Bool
  pub faults : List Bool

abbrev pub M : Type 0 → Type 0 → Type 0
M D A = Tx D → Result A × Tx D

module _ {D A : Type 0} where
  abbrev pub pure : A → M D A
  pure a tx = (ok a, tx)

  abbrev pub raise : Error → M D A
  raise e tx = (err e, tx)

  -- fmt.Errorf("text: %w", err) around the failures of a call
  abbrev pub within : String → M D A → M D A
  within text m tx = let (r, tx') = m tx in (wrapped text r, tx')

abbrev pub broken : Error
broken = msg "statement failed"

abbrev pub in_failed_transaction : Error
in_failed_transaction = msg "current transaction is aborted"

-- The next statement on a connection: its fault, and the faults that are left.
abbrev pub next_fault : List Bool → Bool × List Bool
next_fault [] = (false, [])
next_fault (b ∷ rest) = (b, rest)

module _ {D : Type 0} where
  -- ROLLBACK TO SAVEPOINT, which an aborted transaction accepts
  unfoldable pub rollback_to : D → M D (Unit {0})
  rollback_to saved tx =
      let (bad, rest) = next_fault tx.faults in
      if bad
      then (err broken, record tx { aborted = true; faults = rest })
      else (ok tt, record { tables = saved; aborted = false; faults = rest })

  -- a call whose error is only logged
  abbrev pub attempt : M D (Unit {0}) → M D (Unit {0})
  attempt m tx = (ok tt, (m tx).1)

module _ {D A : Type 0} where
  -- tx.Exec, tx.QueryRow: a statement that reads and writes the tables
  unfoldable pub exec : (D → A × D) → M D A
  exec stmt tx =
      if tx.aborted
      then (err in_failed_transaction, tx)
      else let (bad, rest) = next_fault tx.faults in
        if bad
        then (err broken, record tx { aborted = true; faults = rest })
        else let (a, tables) = stmt tx.tables in
          (ok a, record tx { tables = tables; faults = rest })

infixl 5 ◌>>=◌ ◌>>◌
abbrev pub ◌>>=◌ : {D A B : Type 0} → M D A → (A → M D B) → M D B
◌>>=◌ m f tx = let (r, tx') = m tx in elim r [ ok a ↦ f a tx' | err e ↦ (err e, tx') ]

abbrev pub ◌>>◌ : {D A B : Type 0} → M D A → M D B → M D B
m >> k = m >>= λ _. k

-- The committed tables, and the faults still to come.
pub record World (D : Type 0) : Type 0 where
  pub db : D
  pub faults : List Bool

module _ {D A : Type 0} where
  -- tx.Commit after a body that returned no error; `defer tx.Rollback` otherwise. `db` is what was
  -- committed before.
  unfoldable pub finish : D → Result A × Tx D → Result A × World D
  finish db (err e, tx) = (err e, record { db = db; faults = tx.faults })
  finish db (ok a, tx) =
      let (lost, left) = next_fault tx.faults in
      if tx.aborted
      then (err (msg "commit unexpectedly resulted in rollback"), record { db = db; faults = left })
      else if lost
      then (err broken, record { db = db; faults = left })
      else (ok a, record { db = tx.tables; faults = left })

  -- pool.Begin, the body, and the end of the transaction
  unfoldable pub transact : (Error → Error) → M D A → World D → Result A × World D
  unfolding finish
  transact begin_error body w =
      let (refused, rest) = next_fault w.faults in
      if refused
      then (err (begin_error broken), record w { faults = rest })
      else finish w.db (body (record { tables = w.db; aborted = false; faults = rest }))

  -- A transaction that only reads and ends by its deferred rollback.
  unfoldable pub rolled_back : (Error → Error) → M D A → World D → Result A × World D
  rolled_back begin_error body w =
      let (refused, rest) = next_fault w.faults in
      if refused
      then (err (begin_error broken), record w { faults = rest })
      else let (r, tx) = body (record { tables = w.db; aborted = false; faults = rest }) in
        (r, record w { faults = tx.faults })
