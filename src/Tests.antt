-- ===== src/Tests.antt =====
-- The theorems on concrete inputs.
mod Sample
mod Conversations
mod Messages
mod Media
mod Sessions
mod Frames
mod Presence
mod Fanout
mod Logins
mod Requests
mod Startup
mod Sending
mod Twice
mod Profiles
