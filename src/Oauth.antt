-- ===== src/Oauth.antt =====
-- internal/oauth: the grant store and the authorization request.
pub mod Types
pub mod Tokens
pub mod Revocation
pub mod Consents
pub mod Devices
pub mod Operations
pub mod History
pub mod Grants
mod Examples
