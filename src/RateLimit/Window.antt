-- ===== src/RateLimit/Window.antt =====
-- internal/ratelimit/ratelimit.go: sequences of calls of Take, and how many of them it lets through.
use certus.Common.{
  pos, string_key, hash_key, pair_key, ℕ, ◌+◌, ◌≤◌, ◌<◌, ◌≡◌, inl, inr, Bool, true, false, ◌&&◌,
  List, [], ◌∷◌, arith, leb, eqb, if◌then◌else◌, ok, err, Time, before, Bool-cases, min, length,
  count_if, to_ℕ, put, lookup-put, length-put-le,
}
use certus.RateLimit.Types.{Reply, BucketKey, Attempt, Decision, MemoryBucket, MemoryRepository}
use certus.RateLimit.Limiter.{
  validate_attempt, decision, key_of, bucket_at, next_bucket, capacity, make_room, take,
}

-- The answers to attempts that arrive one after another.
unfoldable pub take_all : MemoryRepository → List Attempt → List (Attempt × Reply Decision)
take_all r [] = []
take_all r (a ∷ more) = (a, (take r a).1) ∷ take_all (take r a).0 more

abbrev pub is_allowed : Reply Decision → Bool
is_allowed (ok d) = d.allowed
is_allowed (err e) = false

abbrev pub same_key : BucketKey → BucketKey → Bool
same_key = pair_key.same

abbrev pub attempts_for : BucketKey → List Attempt → ℕ
attempts_for k attempts = count_if (λ a. same_key (key_of a) k) attempts

abbrev pub allowed_for : BucketKey → List (Attempt × Reply Decision) → ℕ
allowed_for k answers =
    count_if (λ (e : Attempt × Reply Decision). same_key (key_of e.0) k && is_allowed e.1) answers

-- An attempt that passes the checks, and, if it is for the key, has this limit and window and falls
-- into the time from `start` until one window later.
abbrev pub Within : BucketKey → ℕ → ℕ → Time → Attempt → Type 0
Within k limit window start a =
    (validate_attempt a ≡ ok tt)
    × (same_key (key_of a) k ≡ true
        → (a.limit ≡ pos limit)
          × (a.window ≡ pos window)
          × (start ≤ a.now)
          × (a.now < start + window))

capacity-take :
    (r : MemoryRepository) → (if eqb (capacity r) 0 then 10000 else capacity r) ≡ capacity r
capacity-take r = ground arith

-- With room in the map, a call writes the bucket of its key and nothing else.
pub take-room :
    (r : MemoryRepository) (a : Attempt)
    → validate_attempt a ≡ ok tt
    → length r.buckets < capacity r
    → take r a ≡ (
      record {
        buckets = put (key_of a) (next_bucket a (bucket_at (key_of a) r.buckets)) r.buckets;
        max_size = capacity r;
      },
      ok (
          decision
            (next_bucket a (bucket_at (key_of a) r.buckets)).attempts
            (to_ℕ a.limit)
            (next_bucket a (bucket_at (key_of a) r.buckets)).reset_at),
    )
unfolding take make_room
take-room r a valid room =
    let open_map : leb (capacity r) (length r.buckets) ≡ false = ground arith in
    rw (valid, take, open_map, open_map)

bucket_at-put :
    (k j : BucketKey) (b : MemoryBucket) (m : List (BucketKey × MemoryBucket))
    → bucket_at j (put k b m) ≡ (if same_key k j then b else bucket_at j m)
bucket_at-put k j b m = elim (Bool-cases (same_key k j)) [
  | inl e ↦ rw (bucket_at, lookup-put k j b m, e)
  | inr e ↦ rw (bucket_at, lookup-put k j b m, e)
]

-- The first attempt of a window.
pub next_bucket-expired :
    (a : Attempt) (b : MemoryBucket)
    → b.reset_at ≤ a.now
    → next_bucket a b ≡ record { attempts = 1; reset_at = a.now + to_ℕ a.window; touched = a.now }
unfolding next_bucket
next_bucket-expired a b old =
    let late : before a.now b.reset_at ≡ false = ground arith in ground (arith, late)

-- A later attempt of a window.
pub next_bucket-open :
    (a : Attempt) (b : MemoryBucket)
    → a.now < b.reset_at
    → next_bucket a b
      ≡ record b { attempts = min (b.attempts + 1) (to_ℕ a.limit + 1); touched = a.now }
unfolding next_bucket
next_bucket-open a b live =
    let early : before a.now b.reset_at ≡ true = ground arith in
    let set : eqb b.reset_at 0 ≡ false = ground arith in rw (set, early)

module _ (k : BucketKey) (limit window : ℕ) (start : Time) where
  -- No window of the key is open at the start: what is left of an earlier one has expired.
  abbrev pub IsFresh : MemoryRepository → Type 0
  IsFresh r = (bucket_at k r.buckets).reset_at ≤ start

  -- A window of the key is open until after the last attempt.
  abbrev pub IsOpen : MemoryRepository → Type 0
  IsOpen r = start + window ≤ (bucket_at k r.buckets).reset_at

  -- There are buckets to spare for every attempt.
  abbrev pub HasRoom : MemoryRepository → List Attempt → Type 0
  HasRoom r attempts = length r.buckets + length attempts ≤ capacity r

  pub after_take-room :
      (r : MemoryRepository) (a : Attempt) (rest : List Attempt)
      → validate_attempt a ≡ ok tt
      → HasRoom r (a ∷ rest)
      → HasRoom (take r a).0 rest
  after_take-room r a rest valid room = rw (take-room r a valid (omega arith)) (
      ground (
        arith,
        capacity-take r,
        length-put-le (key_of a) (next_bucket a (bucket_at (key_of a) r.buckets)) r.buckets,
      ))

  -- What the key's bucket is after a call.
  pub bucket_at-take :
      (r : MemoryRepository) (a : Attempt)
      → validate_attempt a ≡ ok tt
      → length r.buckets < capacity r
      → bucket_at k (take r a).0.buckets ≡ (
          if same_key (key_of a) k
          then next_bucket a (bucket_at k r.buckets)
          else bucket_at k r.buckets)
  bucket_at-take r a valid room = elim (Bool-cases (same_key (key_of a) k)) [
    | inl e ↦ rw (
      take-room r a valid room,
      bucket_at-put (key_of a) k _ r.buckets,
      e,
      (pair_key.same_iff (key_of a) k).0 e,
    )
    | inr e ↦ rw (take-room r a valid room, bucket_at-put (key_of a) k _ r.buckets, e)
  ]

  -- An attempt for another key is not counted for this one.
  pub allowed_for-other :
      (a : Attempt) (answer : Reply Decision) (rest : List (Attempt × Reply Decision))
      → same_key (key_of a) k ≡ false
      → allowed_for k ((a, answer) ∷ rest) ≡ allowed_for k rest
  allowed_for-other a answer rest e = rw e
