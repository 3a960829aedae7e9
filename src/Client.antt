-- ===== src/Client.antt =====
-- internal/client: the registry of systems and clients.
pub mod Types
pub mod Policy
pub mod Validate
pub mod Valid
pub mod Words
pub mod ValidParts
pub mod Accepts
pub mod Lifetimes
pub mod Redirects
pub mod Define
pub mod Repository
pub mod Operations
pub mod Change
pub mod Failure
pub mod Ordered
pub mod Forget
pub mod Kept
pub mod Consistent
pub mod Archived
pub mod Deleted
pub mod Stored
pub mod AllValid
pub mod Defined
pub mod Owned
pub mod Examples
