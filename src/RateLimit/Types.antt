-- ===== src/RateLimit/Types.antt =====
-- internal/ratelimit/ratelimit.go: policies, attempts, decisions and the repository's state.
use certus.Common.{ℕ, String, Bool, List, [], Result, Time, Hash, ℤ}

pub data Error : Type 0 where
  invalid_policy invalid_key unavailable : Error

abbrev pub Reply : Type 0 → Type 0
Reply A = Result Error A

-- A Go `int` and a `time.Duration` in nanoseconds: either may be negative in a configuration.
pub record Policy : Type 0 where
  pub limit : ℤ
  pub window : ℤ

pub record Attempt : Type 0 where
  pub scope : String
  pub subject_hash : Hash
  pub limit : ℤ
  pub window : ℤ
  pub now : Time

pub record Decision : Type 0 where
  pub allowed : Bool
  pub remaining : ℕ
  pub reset_at : Time

pub record MemoryBucket : Type 0 where
  pub attempts : ℕ
  pub reset_at : Time
  pub touched : Time

-- The source's key is the scope, a zero byte and the hash: the scope has no zero byte, so that is
-- this pair.
abbrev pub BucketKey : Type 0
BucketKey = String × Hash

pub record MemoryRepository : Type 0 where
  pub buckets : List (BucketKey × MemoryBucket)
  pub max_size : ℕ

-- NewMemoryRepository
abbrev pub new_memory_repository : MemoryRepository
new_memory_repository = record { buckets = []; max_size = 10000 }
