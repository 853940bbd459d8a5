-- ===== src/Lib.antt =====
-- A model of meme-launchpad-backend: its chain indexers, wallet logins and token creation. The
-- repository has two programs for each. The rebuild is in app-rebuild; the legacy programs are
-- apps/indexer and apps/api.
--
-- The indexers follow the MEMECore contract on an EVM chain and keep PostgreSQL tables of
-- tokens, trades and candles. Each reads ranges of blocks from an RPC node, decodes the
-- contract's events and writes them with a checkpoint, from which a new process resumes. Login
-- gives a user a challenge to sign and a token for the signature. Token creation computes the
-- CREATE2 address of a new token, packs the contract's parameters, signs them for the contract
-- and stores the request. The rebuild reads its settings from the environment, and its services
-- talk by gRPC.
--
-- Files:
-- - Common: the names shared by all files, Boolean tests over the native numbers, equality as an
--   instance. Fallible: errors and results of Go, do blocks over them, and a calculus of what a
--   result that is returned satisfies.
-- - Go: what the code uses of Go's library, by clauses: strconv, strings, encoding/hex and
--   slices of bytes.
-- - Postgres: tables under a unique constraint (Postgres.Table), and pgx transactions
--   (Postgres.Transaction), in which a list of faults says which statements fail. A statement
--   after a failed one fails until a rollback, and a transaction that does not commit leaves the
--   tables unchanged. Postgres.Transaction.Laws has the rules for what a transaction body does.
--   Postgres.Query has WHERE, ORDER BY, LIMIT and OFFSET, and what pages are together, by number
--   or by cursor; Postgres.Query.Ties is about the order in which a query scans its rows.
-- - Config: app-rebuild/internal/config/config.go. Validate has the Validate methods, Load has
--   Load over the environment as a function. Sound and Sweep have the theorems.
-- - Candle: alignTime (repository/chain_event.go) and alignTimeToInterval (database/events.go).
-- - Ledger: app-rebuild/internal/repository/chain_event.go. Rows has the projections and table
--   rows, Raw and Statements the SQL statements, Repository the functions (SaveBlockRange is
--   save_block_range, LastSyncedBlock is last_synced_block, applyTokenTrade is
--   apply_token_trade). Spec says what a range does to the tables without transactions and
--   errors; Refines, Keeps, Volume, Accounting, Shape and Replay have the theorems.
-- - ChainIndexer: app-rebuild/internal/chainindexer/indexer.go. Client has the RPC client and
--   the ABI, Decode has decodeProjections and decodeProjection, Sync has VerifyChain, nextBlock,
--   syncAvailable and Run.
-- - LegacyIndexer: apps/indexer/internal/database/events.go and postgres.go (Rows, Statements,
--   Database) and apps/indexer/internal/indexer/indexer.go (Parse, Sync; syncHistoricalBlocks is
--   iterated tick).
-- - Auth: app-rebuild/internal/auth/service.go and memory_store.go. Service has RequestMessage
--   and Login; `clock` gives the readings of time.Now within a call. Signatures, URLs, formats
--   and JWT are parameters. Auth.Users is the user store of internal/repository/user.go,
--   Auth.RedisStore the challenge store of internal/auth/redis_store.go, with entries that end
--   in whole milliseconds. Auth.Concurrent has requests and logins that interleave, in the steps
--   between their calls of the store, with Login up to consumeNonce as check and look, and
--   consumeNonce as spend.
-- - TokenCreation: app-rebuild/internal/tokencreation/service.go and the INSERT of
--   internal/repository/token_creation.go. Service has New and Create.
-- - GrpcSecurity: app-rebuild/internal/grpcsecurity/security.go. Plaintext joins it to Config:
--   it is about the settings with which a service runs without TLS. Dial has the connections that
--   app-rebuild/internal/app/app.go makes.
-- - Upload: app-rebuild/internal/upload/service.go.
-- - Gateway: the transports of the rebuild. Messages has the protobuf messages and their
--   conversions, Server app-rebuild/internal/grpcapi, Client the adapters of
--   app-rebuild/internal/grpcclient, Http app-rebuild/internal/httpapi/server.go, with its
--   routes in Http.Routes. TokenReader,
--   TokenCreator, Presigner and Authenticator are the interfaces by which they meet, as records.
--   Repository is internal/repository/token.go as a TokenReader, whose pages are slices that may
--   be nil; Repository.Empty is about pages without tokens. Parity compares REST over the
--   gRPC services with REST over what these are made of; Guard is about callers without a token.
-- - LegacyApi: apps/api/internal/service/crypto (Create2 and Signer), the token service of
--   apps/api/internal/service/token (TokenService, with CreateToken in TokenService.Create),
--   apps/api/internal/logic/user (Wallet, with WalletLogin in Wallet.Session) with the middleware
--   of apps/api/internal/middleware (Wallet.Middleware),
--   and logic/kline with model/kline.go of apps/api/internal (Kline, over Postgres.Query.Cursor),
--   service/chain/events.go (Events, over the tables of LegacyIndexer), and logic/token/logic.go
--   with model/token.go and model/trade.go (Tokens, with Tokens.Creation over TokenService). Redis has the calls of Redis.
-- - Tests: concrete inputs, and the theorems applied to them.
--
-- How the code is read: a block's time is a number of seconds since 1970, the time of a login of
-- the rebuild of nanoseconds, an unsigned *big.Int from a uint256 a natural number (an Option
-- where it may be nil), a price a number of units of 10^-18, a hash or an address a number that
-- an Encoding prints. In token creation bytes are lists of numbers below 256. Block numbers are
-- 64-bit: sums wrap modulo 2^64. Chain ids are natural numbers. A query that orders its rows is
-- a sort of the list of rows that it chooses. A client's replies may depend on how many calls
-- were made before, so nodes may fail at any time. The loop of syncAvailable runs on fuel; more
-- fuel than there are blocks left is enough. The loops of Run and of syncHistoricalBlocks are
-- steps per tick; the search for an address runs on the bound of the code. A call over gRPC is
-- the method of the server, and the text of its error the one of package status; times in
-- messages are after 1970, and an int is converted to int32 as Go does. Random bytes, times and
-- digits of random numbers are arguments. Redis is a table whose entries end at a time, with a
-- list of faults of its calls. What is logged is left out.
--
-- Parameters: Keccak256, the packing of the ABI, ECDSA, hexutil, JWT, HMAC and SHA-1, the
-- escapes of URLs, the reading of files and certificates, addresses of the
-- package net, big.Float; a theorem that needs more of them names it in a record.
--
-- Rows that ORDER BY finds equal stay in the order of the query's scan, which the theorems on pages
-- let differ from query to query. Assumed: a result set is read to its end; in the legacy API an
-- empty slice and nil are the same list, and the time of a candle is a whole number of seconds; an
-- address and a name fit their columns; a failed Commit leaves the tables unchanged; a statement that fails outside of a transaction has
-- no effect; LOWER is idempotent where a theorem says so; the legacy indexer's time zone is UTC;
-- the legacy price, a quotient of big.Float values, is a parameter; nonces of the database are
-- below 2^63 and user ids below 2^53, which a token's claims hold exactly. The columns that
-- PostgreSQL fills itself (id, created_at, NOW()) are left out, and so is the text of numbers in
-- error messages of the indexers.
--
-- Not modelled: the ABI tables, connections and the WebSocket subscription, which only logs; the
-- HTTP and gRPC libraries, the keys of the rebuild's JWT; of the legacy API the encoding by a
-- script and the queries of TokenModel that nothing calls, trades, comments, activities and
-- invitations, which are single queries, and the routes; start-up beside the connections to the
-- services; generated code.
pub mod Common
pub mod Fallible
pub mod Go
pub mod Config
pub mod Postgres
pub mod Candle
pub mod Ledger
pub mod ChainIndexer
pub mod LegacyIndexer
pub mod Auth
pub mod TokenCreation
pub mod GrpcSecurity
pub mod Upload
pub mod Gateway
pub mod LegacyApi
pub mod Tests
