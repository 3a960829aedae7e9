-- ===== src/RateLimit/Eviction.antt =====
-- internal/ratelimit/ratelimit.go: evictOldest, and the limit on the number of buckets.
use certus.Common.{
  Result-cases, pair_key, string_key, hash_key, ℕ, ◌≤◌, ◌<◌, ◌≡◌, refl, sym, ◌∙◌, subst, ◌⊎◌, inl,
  inr, none, some, List, [], ◌∷◌, arith, leb, if◌then◌else◌, Time, before, Bool-cases, length, All,
  length-filter-le, lookup, delete, length-put-le, length-delete-lt, IsDict, IsDict-put,
  IsDict-delete, IsDict-filter,
}
use certus.RateLimit.Types.{BucketKey, Attempt, MemoryBucket, MemoryRepository}
use certus.RateLimit.Limiter.{
  validate_attempt, prune, oldest_of, evict_oldest, key_of, bucket_at, next_bucket, capacity,
  make_room, take,
}

lookup-head :
    (i : BucketKey) (b : MemoryBucket) (m : List (BucketKey × MemoryBucket))
    → lookup i ((i, b) ∷ m) ≡ some b
lookup-head i b m = rw ((pair_key.same_iff i i).1 refl)

lookup-tail :
    (i k : BucketKey) (b c : MemoryBucket) (m : List (BucketKey × MemoryBucket))
    → lookup i m ≡ none
    → lookup k m ≡ some c
    → lookup k ((i, b) ∷ m) ≡ some c
lookup-tail i k b c m fresh h = elim (Bool-cases (pair_key.same i k)) [
  | inl e ↦
      let a : i ≡ k = (pair_key.same_iff i k).0 e in
      let clash : none ≡ some c = sym (subst (λ z. lookup z m ≡ none) a fresh) ∙ h in
      ground (arith, clash)
  | inr e ↦ rw e h
]

-- A bucket of the map under this key that was last used at this time.
abbrev Holds : BucketKey → Time → List (BucketKey × MemoryBucket) → Type 0
Holds k u m = (b : MemoryBucket) × (lookup k m ≡ some b) × (b.touched ≡ u)

abbrev IsOldest : Time → List (BucketKey × MemoryBucket) → Type 0
IsOldest u m = All (λ (e : BucketKey × MemoryBucket). u ≤ e.1.touched) m

Holds-tail :
    (i k : BucketKey) (b : MemoryBucket) (u : Time) (m : List (BucketKey × MemoryBucket))
    → lookup i m ≡ none
    → Holds k u m
    → Holds k u ((i, b) ∷ m)
Holds-tail i k b u m fresh (c, h, e) = (c, lookup-tail i k b c m fresh h, e)

-- The loop returns the key that it starts with or one that is there, and no bucket is older.
oldest_of-some :
    (j : BucketKey) (t : Time) (m : List (BucketKey × MemoryBucket))
    → IsDict m
    → (k : BucketKey) × (u : Time) × (oldest_of (some (j, t)) m ≡ some (k, u))
      × (u ≤ t)
      × IsOldest u m
      × ((k ≡ j) × (u ≡ t) ⊎ Holds k u m)
unfolding oldest_of
oldest_of-some j t [] d = (j, t, refl, ground arith, tt, inl (refl, refl))
oldest_of-some j t ((i, b) ∷ m) d = elim (Bool-cases (before b.touched t)) [
  | inl e ↦
      let (k, u, found, older, least, from) = oldest_of-some i b.touched m d.1 in
      (
        k,
        u,
        rw e found,
        ground arith,
        (older, least),
        inr (elim from [
          | inl (a, c) ↦
              (b, subst (λ z. lookup z ((i, b) ∷ m) ≡ some b) (sym a) (lookup-head i b m), sym c)
          | inr h ↦ Holds-tail i k b u m d.0 h
        ]),
      )
  | inr e ↦
      let (k, u, found, older, least, from) = oldest_of-some j t m d.1 in
      (
        k,
        u,
        rw e found,
        older,
        (ground arith, least),
        elim from [ inl a ↦ inl a | inr h ↦ inr (Holds-tail i k b u m d.0 h) ],
      )
]

evict_oldest-some :
    (k : BucketKey) (u : Time) (m : List (BucketKey × MemoryBucket))
    → oldest_of none m ≡ some (k, u)
    → evict_oldest m ≡ delete k m
unfolding evict_oldest
evict_oldest-some k u m found = rw (found, evict_oldest)

-- evictOldest on a map that is not empty deletes one bucket of it, and no bucket was last used
-- earlier than that one.
evict_oldest_lem :
    (m : List (BucketKey × MemoryBucket))
    → IsDict m
    → 0 < length m
    → (k : BucketKey) × (b : MemoryBucket) × (lookup k m ≡ some b)
      × All (λ (e : BucketKey × MemoryBucket). b.touched ≤ e.1.touched) m
      × (evict_oldest m ≡ delete k m)
unfolding evict_oldest oldest_of
evict_oldest_lem [] d h = ground arith
evict_oldest_lem ((i, b) ∷ m) d h =
    let (k, u, found, older, least, from) = oldest_of-some i b.touched m d.1 in
    elim from [
      | inl (a, c) ↦ (
        i,
        b,
        lookup-head i b m,
        (ground arith, subst (λ z. IsOldest z m) c least),
        evict_oldest-some i u ((i, b) ∷ m) (found ∙ rw a),
      )
      | inr (c, e, at) ↦ (
        k,
        c,
        lookup-tail i k b c m d.0 e,
        (ground arith, subst (λ z. IsOldest z m) (sym at) least),
        evict_oldest-some k u ((i, b) ∷ m) found,
      )
    ]

evict_oldest-room :
    (size : ℕ) (m : List (BucketKey × MemoryBucket))
    → IsDict m
    → 0 < size
    → length m ≤ size
    → length (if leb size (length m) then evict_oldest m else m) < size
evict_oldest-room size m d pos h = elim (Bool-cases (leb size (length m))) [
  | inl e ↦
      let (k, b, there, least, gone) = evict_oldest_lem m d (ground arith) in
      rw (e, gone) (ground (arith, length-delete-lt k b m there))
  | inr e ↦ rw e (ground arith)
]

evict_if-IsDict :
    (size : ℕ) (m : List (BucketKey × MemoryBucket))
    → IsDict m
    → IsDict (if leb size (length m) then evict_oldest m else m)
unfolding evict_oldest oldest_of
evict_if-IsDict size [] d = elim (Bool-cases (leb size 0)) [ inl e ↦ rw e (tt) | inr e ↦ rw e tt ]
evict_if-IsDict size ((i, b) ∷ m) d = elim (Bool-cases (leb size (length ((i, b) ∷ m)))) [
  | inl e ↦
      let (k, c, there, least, gone) = evict_oldest_lem ((i, b) ∷ m) d (omega arith) in
      rw (e, gone) (IsDict-delete k ((i, b) ∷ m) d)
  | inr e ↦ rw e d
]

-- The buckets have different keys, and there are at most as many as the limit says.
abbrev pub IsBounded : MemoryRepository → Type 0
IsBounded r = IsDict r.buckets × (length r.buckets ≤ capacity r)

prune_if-IsBounded :
    (size : ℕ) (now : Time) (m : List (BucketKey × MemoryBucket))
    → IsDict m
    → length m ≤ size
    → IsDict (if leb size (length m) then prune now m else m)
      × (length (if leb size (length m) then prune now m else m) ≤ size)
unfolding prune
prune_if-IsBounded size now m d h = elim (Bool-cases (leb size (length m))) [
  | inl e ↦ rw e (IsDict-filter _ m d, omega (arith, length-filter-le _ m))
  | inr e ↦ rw e (d, h)
]

make_room_lem :
    (size : ℕ) (now : Time) (m : List (BucketKey × MemoryBucket))
    → 0 < size
    → IsDict m
    → length m ≤ size
    → IsDict (make_room size now m) × (length (make_room size now m) < size)
unfolding make_room
make_room_lem size now m large d h =
    let kept = prune_if-IsBounded size now m d h in
    (evict_if-IsDict size _ kept.0, evict_oldest-room size _ kept.0 large kept.1)

capacity-positive : (r : MemoryRepository) → 0 < capacity r
capacity-positive r = ground arith

-- Every call of Take keeps the buckets' keys different and their number within the limit, however
-- many keys the attempts have.
pub take-IsBounded : (r : MemoryRepository) (a : Attempt) → IsBounded r → IsBounded (take r a).0
unfolding take
take-IsBounded r a (d, h) = elim (Result-cases (validate_attempt a)) [
  | inl (e, refused) ↦ rw (refused, take) (d, h)
  | inr (_, valid) ↦
      let (keys, room) = make_room_lem (capacity r) a.now r.buckets (capacity-positive r) d h in
      let bucket = next_bucket a (bucket_at (key_of a) (make_room (capacity r) a.now r.buckets)) in
      let buckets = make_room (capacity r) a.now r.buckets in
      rw (valid, take)
        (
          IsDict-put (key_of a) bucket buckets keys,
          ground (arith, room, capacity-positive r, length-put-le (key_of a) bucket buckets),
        )
]
