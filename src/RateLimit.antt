-- ===== src/RateLimit.antt =====
-- internal/ratelimit: the fixed-window rate limiter.
pub mod Types
pub mod Limiter
pub mod Window
pub mod Policies
pub mod Burst
pub mod Eviction
mod Examples
