-- ===== src/RateLimit/Burst.antt =====
-- internal/ratelimit/ratelimit.go: how many attempts of one key a window lets through.
use certus.Common.{
  pos, string_key, hash_key, pair_key, ℕ, ◌+◌, ◌-◌, ◌<◌, ◌≡◌, ◌∙◌, inl, inr, true, List, [], ◌∷◌,
  arith, leb, if◌then◌else◌, ok, Time, Bool-cases, min, length, All,
}
use certus.RateLimit.Types.{Reply, BucketKey, Attempt, Decision, MemoryRepository}
use certus.RateLimit.Limiter.{
  validate_attempt, decision, key_of, bucket_at, next_bucket, capacity, take,
}
use certus.RateLimit.Window.{
  take_all, same_key, attempts_for, allowed_for, Within, take-room, next_bucket-expired,
  next_bucket-open, IsFresh, IsOpen, HasRoom, after_take-room, bucket_at-take, allowed_for-other,
}

module _ (k : BucketKey) (limit window : ℕ) (start : Time) where
  -- The answer to an attempt for the key.
  allowed_for-key :
      (r : MemoryRepository) (a : Attempt) (rest : List (Attempt × Reply Decision))
      → validate_attempt a ≡ ok tt
      → length r.buckets < capacity r
      → same_key (key_of a) k ≡ true
      → a.limit ≡ pos limit
      → allowed_for k ((a, (take r a).1) ∷ rest)
        ≡ (if leb (next_bucket a (bucket_at k r.buckets)).attempts limit then 1 else 0)
          + allowed_for k rest
  unfolding decision
  allowed_for-key r a rest valid room hit lim =
      let same : key_of a ≡ k = (pair_key.same_iff (key_of a) k).0 hit in
      rw (take-room r a valid room, hit, lim, same) (ground arith)

  -- In an open window: as many as the limit still has.
  allowed_for-open :
      (r : MemoryRepository) (attempts : List Attempt)
      → IsOpen k limit window start r
      → All (Within k limit window start) attempts
      → HasRoom k limit window start r attempts
      → allowed_for k (take_all r attempts)
        ≡ min (limit - (bucket_at k r.buckets).attempts) (attempts_for k attempts)
  unfolding take_all
  allowed_for-open r [] live within room = ground arith
  allowed_for-open r (a ∷ rest) live ((valid, mine), within) room =
      let moved = bucket_at-take k limit window start r a valid (omega arith) in
      let room_after = after_take-room k limit window start r a rest valid room in
      elim (Bool-cases (same_key (key_of a) k)) [
        | inl hit ↦
            let (lim, win, from, to) = mine hit in
            let later = next_bucket-open a (bucket_at k r.buckets) (omega arith) in
            let now : bucket_at k (take r a).0.buckets ≡ next_bucket a (bucket_at k r.buckets) =
              moved ∙ rw hit in
            let step =
              allowed_for-open (take r a).0 rest (rw (now, later) live) within room_after in
            allowed_for-key r a (take_all (take r a).0 rest) valid (omega arith) hit lim
            ∙ rw (step, now, later, lim, hit) (ground arith)
        | inr other ↦
            let now : bucket_at k (take r a).0.buckets ≡ bucket_at k r.buckets = moved ∙ rw other in
            let step = allowed_for-open (take r a).0 rest (rw now live) within room_after in
            allowed_for-other k limit window start a (take r a).1 (take_all (take r a).0 rest) other
            ∙ rw (step, now, other)
      ]

  -- A key with no open window at `start` gets exactly min(limit, attempts) of the attempts allowed
  -- that it makes from then until one window later, whatever attempts other keys make in between, if
  -- all attempts are well-formed, the key's attempts have one limit and window, and the map has room
  -- for a bucket per attempt.
  pub fixed_window_lem :
      (r : MemoryRepository) (attempts : List Attempt)
      → IsFresh k limit window start r
      → All (Within k limit window start) attempts
      → HasRoom k limit window start r attempts
      → allowed_for k (take_all r attempts) ≡ min limit (attempts_for k attempts)
  unfolding take_all
  fixed_window_lem r [] fresh within room = ground arith
  fixed_window_lem r (a ∷ rest) fresh ((valid, mine), within) room =
      let moved = bucket_at-take k limit window start r a valid (omega arith) in
      let room_after = after_take-room k limit window start r a rest valid room in
      elim (Bool-cases (same_key (key_of a) k)) [
        | inl hit ↦
            let (lim, win, from, to) = mine hit in
            let first = next_bucket-expired a (bucket_at k r.buckets) (omega arith) in
            let now : bucket_at k (take r a).0.buckets ≡ next_bucket a (bucket_at k r.buckets) =
              moved ∙ rw hit in
            let step =
              allowed_for-open (take r a).0 rest (rw (now, first, win) (omega arith)) within
                room_after in
            allowed_for-key r a (take_all (take r a).0 rest) valid (omega arith) hit lim
            ∙ rw (step, now, first, hit) (ground arith)
        | inr other ↦
            let now : bucket_at k (take r a).0.buckets ≡ bucket_at k r.buckets = moved ∙ rw other in
            let step = fixed_window_lem (take r a).0 rest (rw now fresh) within room_after in
            allowed_for-other k limit window start a (take r a).1 (take_all (take r a).0 rest) other
            ∙ rw (step, other)
      ]
