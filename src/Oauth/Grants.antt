-- ===== src/Oauth/Grants.antt =====
-- The properties of the grants of internal/oauth/store.go.
pub mod Codes
pub mod Scopes
pub mod Rotation
pub mod Reuse
pub mod Revoked
pub mod DeviceFlow
pub mod ScopeMerge
pub mod Keys
pub mod Withdrawal
pub mod Approval
