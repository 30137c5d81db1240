-- ===== src/Server/Invariant.antt =====
-- What holds of the tables in every state that requests can reach.
pub mod Hashes
pub mod Writes
pub mod Parts
pub mod Stability
pub mod Unique
pub mod Numbers
pub mod Privacy
pub mod Reachable
