-- ===== src/Oauth/History.antt =====
-- What the calls of internal/oauth/store.go leave of the records that are stored.
pub mod Keeps
pub mod Persists
pub mod Tokens
pub mod Devices
pub mod Steps
