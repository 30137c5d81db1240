-- ===== src/Server.antt =====
-- crates/server: the handlers and the state that they share.
pub mod Error
pub mod Presence
pub mod World
pub mod Returns
pub mod Keeps
pub mod Headers
pub mod Auth
pub mod Db
pub mod Delivery
pub mod Messaging
pub mod Media
pub mod Profile
pub mod Blobs
pub mod Ws
pub mod Response
pub mod App
pub mod Routes
pub mod Router
pub mod Invariant
pub mod Sent
pub mod Config
pub mod Start
