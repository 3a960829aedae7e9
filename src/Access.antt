-- ===== src/Access.antt =====
-- internal/access: roles, permissions and grants, by client.
pub mod Types
pub mod Definitions
pub mod Repository
pub mod Operations
pub mod Integrity
pub mod References
pub mod Consistent
pub mod Grants
pub mod Codes
pub mod CodesKept
pub mod Entitled
pub mod Effective
mod Examples
