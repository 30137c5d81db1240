-- ===== src/Lib.antt =====
-- trust-server: the server of a messenger. Clients register an account and its devices, exchange
-- messages in conversations of two accounts over REST, and hold a WebSocket over which events
-- reach their devices. Durable state lives in Postgres; connected devices are in memory.
--
-- The parts and their files here:
-- - crates/storage: Storage/Models (models.rs) and Storage/Tables (migrations/*.sql) are the rows
--   and the database as lists of rows in the order of insertion. Storage/Backend says how one SQL
--   statement runs: it is atomic, it checks the constraints that the migrations declare, and it
--   may fail to reach the database. Storage/AuthRepo is auth_repo.rs query by query,
--   Storage/MemoryStore and Storage/AuthStore are the two implementations of the trait in
--   auth_store.rs, Storage/Errors is StorageError and Storage/Pool is Db of lib.rs.
-- - crates/server/src/db.rs: Server/Db, a module for each section of the file, and in it a
--   definition for each function and for each SQL statement of a function. A function of several
--   statements is a do block of statements, so that it can fail between any two of them.
-- - crates/server: Server/Auth (auth.rs), Server/Delivery and Server/Messaging (messaging.rs),
--   Server/Media (media.rs), Server/Profile (profile.rs), Server/Blobs (blobs.rs), Server/Ws
--   (ws.rs), Server/Presence (presence.rs), Server/Error (error.rs), Server/App (app.rs), and
--   Server/World for the state that the handlers share. Server/Routes is the route table of app.rs
--   and Server/Router a request from its path through the version guard and the extractors to the
--   handler and its answer (Server/Response). Server/Config is config.rs, and Server/Start
--   main.rs: the order of the start, and the task that retries the migrations. A handler is a
--   function of the same name from the parsed request to a result and the state after it.
-- - crates/protocol: Protocol, Protocol/Rest, and Protocol/Payload for JSON values.
--   crates/realtime: Realtime. crates/crypto: Commit.
-- - Common and Exec hold what the modules share: Boolean tests, lists as tables, sorting and
--   selection, texts, results with state. Storage/Ensures is the logic in which invariants of
--   queries are proved: what holds of the tables before, after a result and after an error.
--   Storage/Keeps and Server/Keeps are its counterpart for whole handlers: a rule for each way to
--   build a query or a handler, and the record IsStable of Server/Keeps/Queries, the interface
--   between the functions of the database that write and the requests. Server/Invariant fills that
--   interface: Invariant/Writes says which table each statement writes, and Invariant/Parts and
--   Invariant/Stability turn that into the queries that keep a property of few tables.
--   Server/Returns takes a handler that returned apart into its actions. Server/Sent follows one
--   request to send from its token to the events, and those over the bus of crates/realtime to the
--   receiver of a device. Tests has the theorems on concrete inputs.
--
-- The handlers run on a state of three parts: the database with its outside world (Backend), the
-- presence maps, and the list of the events published to devices so far. A result is a value or an
-- error, and what was written before an error stays written.
--
-- What the program calls and does not implement is a parameter: the record Outside of
-- Storage/Outside gives the clock, the random source, whether the n-th call fails, the collation
-- of texts, base64, SHA-256, argon2 and the parsing of UUIDs; the record Broadcast of Realtime
-- gives tokio's broadcast channels with their documented laws, which Tests/Fanout fills with
-- queues. The record Extractors of Server/Router says how axum reads a handler's arguments from a
-- request, and the record Platform of Server/Start what the start asks of figment, sqlx and the
-- operating system. Conditions on the outside (a statement that reaches the database, hashes that
-- differ, a clock that does not run backwards) are hypotheses of the theorems that need them.
--
-- Numbers are natural numbers. A counter of messages is a BIGINT, whose overflow is an error of
-- the statement; an epoch is an i64, whose successor wraps around; a limit or a cursor that a
-- client sends is a signed number. A client that follows cursors (Server/Db/Media/Follow) is
-- recursion on fuel, for which one more than the number of attachments is enough. The task of the
-- migrations (Server/Start) loops for as long as they fail, so it is recursion on fuel without a
-- bound of its own: one more try than fail is enough.
--
-- Concurrency is modelled where the code speaks of it: Server/Db/Conversations/Race interleaves
-- the statements of two calls of dm_conversation in any order; a step of it is one statement. A
-- call makes five statements at most, so five turns are enough for it. Server/Auth/Twice
-- interleaves two calls of refresh with one token: both look the session up before either rotates
-- it.
--
-- Not modelled: the CORS and tracing layers of the router and axum's own handling of HEAD and
-- OPTIONS, serde's parsing and printing, log lines, and the signaling crate, which has no code.
-- The order in which a HashMap gives its keys is the order of insertion here, and rows that tie in
-- an ORDER BY keep theirs: where rows tie, a theorem about an order speaks of this one.
pub mod Common
pub mod Exec
pub mod Protocol
pub mod Storage
pub mod Server
pub mod Commit
pub mod Realtime
pub mod Tests
