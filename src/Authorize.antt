-- ===== src/Authorize.antt =====
-- internal/oauth/authorize.go: the validation of an authorization request.
pub mod Request
pub mod Accepted
pub mod Exact
mod Examples
