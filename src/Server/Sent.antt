-- ===== src/Server/Sent.antt =====
-- What a message that was sent brings to the devices of both accounts.
pub mod Quiet
pub mod Calm
pub mod Notices
pub mod Delivery
