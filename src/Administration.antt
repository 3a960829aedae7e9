-- ===== src/Administration.antt =====
-- internal/administration: the administrators' roles and permissions.
pub mod Roles
pub mod Repository
pub mod Granted
pub mod LastAdmin
mod Examples
