-- ===== src/RateLimit/Limiter.antt =====
-- internal/ratelimit/ratelimit.go: the policy's tests, Allow and Take.
use certus.Common.{
  pair_key, string_key, hash_key, ℕ, ◌+◌, ◌-◌, ◌*◌, String, Bool, true, not, ◌&&◌, ◌||◌, Option,
  none, some, List, [], ◌∷◌, leb, eqb, if◌then◌else◌, ok, err, Time, before, second, Hash, min,
  length, filter, is_positive, to_ℕ, below, above, is_zero, lookup, put, delete, is_empty,
  trim_space, codes, is_digit, is_lower, is_one_of, first_then,
}
use certus.RateLimit.Types.{
  Reply, BucketKey, Policy, Attempt, Decision, MemoryBucket, MemoryRepository, invalid_policy,
  invalid_key,
}

-- Policy.Enabled
unfoldable pub enabled : Policy → Bool
enabled p = is_positive p.limit && is_positive p.window

abbrev pub day : ℕ
day = 24 * 3600 * second

-- Policy.Validate
unfoldable pub validate : Policy → Reply (Unit {0})
validate p =
    if is_zero p.limit && is_zero p.window
    then ok tt
    else if below p.limit 1 || above p.limit 1000000 || below p.window second || above p.window day
    then err invalid_policy
    else ok tt

-- scopePattern, `^[a-z][a-z0-9_.-]{0,63}$`
unfoldable pub scope_pattern : String → Bool
scope_pattern s =
    first_then is_lower (λ c. is_lower c || is_digit c || is_one_of (b'_' ∷ b'.' ∷ b'-' ∷ []) c) 0
      63 (codes s)

unfoldable pub validate_attempt : Attempt → Reply (Unit {0})
unfolding scope_pattern
validate_attempt a =
    if not (scope_pattern a.scope)
      || below a.limit 1
      || above a.limit 1000000
      || below a.window second
      || above a.window day
      || eqb a.now 0
    then err invalid_policy
    else ok tt

unfoldable pub decision : ℕ → ℕ → Time → Decision
decision attempts limit reset_at = record {
  allowed = leb attempts limit;
  remaining = limit - attempts;
  reset_at = reset_at;
}

unfoldable pub prune : Time → List (BucketKey × MemoryBucket) → List (BucketKey × MemoryBucket)
prune now buckets = filter (λ (e : BucketKey × MemoryBucket). before now e.1.reset_at) buckets

-- The loop of evictOldest; no oldest yet is the source's empty `oldestKey`.
unfoldable pub oldest_of :
    Option (BucketKey × Time) → List (BucketKey × MemoryBucket) → Option (BucketKey × Time)
oldest_of best [] = best
oldest_of none ((k, b) ∷ m) = oldest_of (some (k, b.touched)) m
oldest_of (some (j, oldest)) ((k, b) ∷ m) =
    oldest_of (if before b.touched oldest then some (k, b.touched) else some (j, oldest)) m

unfoldable pub evict_oldest : List (BucketKey × MemoryBucket) → List (BucketKey × MemoryBucket)
unfolding oldest_of
evict_oldest buckets = elim (oldest_of none buckets) [
  | none ↦ buckets
  | some (k, t) ↦ delete k buckets
]

abbrev pub key_of : Attempt → BucketKey
key_of a = (a.scope, a.subject_hash)

-- `r.buckets[key]`, the zero bucket if there is none.
abbrev pub bucket_at : BucketKey → List (BucketKey × MemoryBucket) → MemoryBucket
bucket_at k m = elim (lookup k m) [
  | none ↦ record { attempts = 0; reset_at = 0; touched = 0 }
  | some b ↦ b
]

-- The bucket after an attempt: a new window, or one more attempt in the open one.
unfoldable pub next_bucket : Attempt → MemoryBucket → MemoryBucket
next_bucket a b =
    if eqb b.reset_at 0 || not (before a.now b.reset_at)
    then record { attempts = 1; reset_at = a.now + to_ℕ a.window; touched = a.now }
    else record b { attempts = min (b.attempts + 1) (to_ℕ a.limit + 1); touched = a.now }

-- The limit on the number of buckets, with its default.
abbrev pub capacity : MemoryRepository → ℕ
capacity r = if eqb r.max_size 0 then 10000 else r.max_size

-- The buckets after the two tests against the limit.
unfoldable pub make_room :
    ℕ → Time → List (BucketKey × MemoryBucket) → List (BucketKey × MemoryBucket)
unfolding prune evict_oldest
make_room size now buckets =
    let pruned = if leb size (length buckets) then prune now buckets else buckets in
    if leb size (length pruned) then evict_oldest pruned else pruned

unfoldable pub take : MemoryRepository → Attempt → MemoryRepository × Reply Decision
unfolding make_room next_bucket decision
take r a = elim (validate_attempt a) [
  | err e ↦ (r, err e)
  | ok _ ↦
      let buckets = make_room (capacity r) a.now r.buckets in
      let bucket = next_bucket a (bucket_at (key_of a) buckets) in
      (
        record { buckets = put (key_of a) bucket buckets; max_size = capacity r },
        ok (decision bucket.attempts (to_ℕ a.limit) bucket.reset_at),
      )
]

-- Service.Allow; `subject_hash` stands for the SHA-256 of the scope, a zero byte and the subject.
unfoldable pub allow :
    (String → String → Hash)
    → MemoryRepository
    → String
    → String
    → Policy
    → Time
    → MemoryRepository × Reply Decision
unfolding enabled validate take
allow subject_hash r scope subject p now =
    let name = trim_space scope in
    let who = trim_space subject in
    if not (enabled p)
    then (r, ok (record { allowed = true; remaining = 0; reset_at = 0 }))
    else elim (validate p) [
      | err e ↦ (r, err e)
      | ok _ ↦
          if not (scope_pattern name) || is_empty who
          then (r, err invalid_key)
          else take r (record {
            scope = name;
            subject_hash = subject_hash name who;
            limit = p.limit;
            window = p.window;
            now = now;
          })
    ]
