-- ===== src/Session.antt =====
-- internal/session: sessions.
pub mod Types
pub mod Repository
pub mod Service
pub mod Lifecycle
pub mod Revoked
pub mod Listing
pub mod Tokens
mod Examples
