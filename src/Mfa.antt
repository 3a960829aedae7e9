-- ===== src/Mfa.antt =====
-- internal/mfa: second factors, their memory repository and the service over it.
pub mod Types
pub mod Repository
pub mod Devices
pub mod Codes
pub mod Service
pub mod Enrolment
pub mod History
pub mod Preserved
pub mod Replay
pub mod Recovery
pub mod Separate
pub mod Rotation
pub mod Guesses
pub mod Misses
pub mod Lockout
pub mod Limit
pub mod Issued
pub mod Accepted
pub mod Protection
pub mod Rewrapped
mod RewrapExamples
mod Examples
