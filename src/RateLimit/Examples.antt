-- ===== src/RateLimit/Examples.antt =====
-- internal/ratelimit/ratelimit.go: a login limit of two attempts per minute, run on small inputs.
use certus.Common.{
  pair_same, pos, string_key, hash_key, pair_key, ℕ, ◌*◌, ◌<◌, String, ◌≡◌, refl, List, [], ◌∷◌,
  arith, ◌==◌, if◌then◌else◌, ok, Time, second, Hash, bytes_equal, min, IsDict,
}
use certus.RateLimit.Types.{
  BucketKey, new_memory_repository, Policy, Attempt, MemoryBucket, MemoryRepository,
}
use certus.RateLimit.Limiter.{scope_pattern, validate_attempt, oldest_of, evict_oldest, take}
use certus.RateLimit.Window.{take_all, attempts_for, allowed_for}
use certus.RateLimit.Burst.{fixed_window_lem}
use certus.RateLimit.Eviction.{IsBounded, take-IsBounded}

abbrev minute : ℕ
minute = 60 * second

abbrev alice : BucketKey
alice = ("login", 1 ∷ [])

abbrev bob : BucketKey
bob = ("login", 2 ∷ [])

abbrev attempt_at : BucketKey → Time → Attempt
attempt_at k now = record {
  scope = k.0;
  subject_hash = k.1;
  limit = pos 2;
  window = pos minute;
  now = now;
}

abbrev two_buckets : List (BucketKey × MemoryBucket)
two_buckets =
    (alice, record { attempts = 3; reset_at = 90; touched = 40 })
    ∷ (bob, record { attempts = 1; reset_at = 95; touched = 35 })
    ∷ []

abbrev full : MemoryRepository
full = record { buckets = two_buckets; max_size = 2 }

abbrev a_hash : String → String → Hash
a_hash scope subject = if subject == "alice" then 1 ∷ [] else 2 ∷ []

abbrev policy : Policy
policy = record { limit = pos 2; window = pos minute }

two_buckets-IsDict : IsDict two_buckets
unfolding bytes_equal pair_same
two_buckets-IsDict = (refl, (refl, tt))

-- In a full map of live buckets the bucket that was used longest ago goes.
evicted_test :
    evict_oldest two_buckets ≡ (alice, record { attempts = 3; reset_at = 90; touched = 40 }) ∷ []
unfolding evict_oldest oldest_of bytes_equal pair_same
evicted_test = refl

take-IsBounded_example : IsBounded (take full (attempt_at ("login", 3 ∷ []) 50)).0
take-IsBounded_example =
    take-IsBounded full (attempt_at ("login", 3 ∷ []) 50) (two_buckets-IsDict, omega arith)

abbrev three_logins : List Attempt
three_logins =
    attempt_at alice 50 ∷ attempt_at bob 51 ∷ attempt_at alice 52 ∷ attempt_at alice 53 ∷ []

valid_at :
    (k : BucketKey) (n : Time) → k.0 ≡ "login" → 0 < n → validate_attempt (attempt_at k n) ≡ ok tt
unfolding validate_attempt scope_pattern
valid_at k n e h = rw e (ground arith)

-- The third of alice's attempts is over the limit of two.
fixed_window_lem_example :
    allowed_for alice (take_all new_memory_repository three_logins)
    ≡ min 2 (attempts_for alice three_logins)
fixed_window_lem_example =
    fixed_window_lem alice 2 minute 50 new_memory_repository three_logins (omega arith)
      (
        (valid_at alice 50 refl (omega arith), λ h. (refl, refl, omega arith, omega arith)),
        (
          (valid_at bob 51 refl (omega arith), λ h. (refl, refl, omega arith, omega arith)),
          (
            (valid_at alice 52 refl (omega arith), λ h. (refl, refl, omega arith, omega arith)),
            (
              (valid_at alice 53 refl (omega arith), λ h. (refl, refl, omega arith, omega arith)),
              tt,
            ),
          ),
        ),
      )
      (omega arith)
