-- ===== src/ChainIndexer.antt =====
-- The rebuild's blockchain consumer, app-rebuild/internal/chainindexer/indexer.go. `Client` has the
-- external interfaces, `Decode` the decoding of logs, `Sync` the loops.
pub mod Client
pub mod Decode
pub mod Sync
