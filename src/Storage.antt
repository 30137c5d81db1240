-- ===== src/Storage.antt =====
-- crates/storage: row types, the database, and the two auth stores.
pub mod Models
pub mod Tables
pub mod Outside
pub mod Backend
pub mod Ensures
pub mod Errors
pub mod AuthRepo
pub mod MemoryStore
pub mod AuthStore
pub mod Pool
pub mod Keeps
