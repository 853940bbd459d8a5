-- ===== src/Ledger.antt =====
-- The durable event ledger of the rebuild: app-rebuild/internal/repository/chain_event.go.
-- `Rows` has the tables, `Raw` and `Statements` the SQL, `Repository` the Go functions.
pub mod Rows
pub mod Raw
pub mod Statements
pub mod Repository
pub mod Spec
pub mod Refines
pub mod Volume
pub mod Keeps
pub mod Shape
pub mod Accounting
pub mod Replay
