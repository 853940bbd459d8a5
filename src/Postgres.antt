-- ===== src/Postgres.antt =====
-- The SQL that the Go code sends: tables under a unique key, and transactions in which any
-- statement may fail.
pub mod Table
pub mod Transaction
pub mod Query
