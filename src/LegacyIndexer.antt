-- ===== src/LegacyIndexer.antt =====
-- The first indexer service, apps/indexer. `Rows` has its events and tables, `Statements` the SQL of
-- internal/database/events.go and postgres.go, `Database` its functions, `Sync` the polling loop of
-- internal/indexer/indexer.go.
pub mod Rows
pub mod Statements
pub mod Database
pub mod Parse
pub mod Sync
