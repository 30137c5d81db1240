-- ===== src/Server/Db.antt =====
-- crates/server/src/db.rs: the queries behind the handlers.
pub mod Conversations
pub mod Messages
pub mod Receipts
pub mod Directory
pub mod Profiles
pub mod Media
