-- ===== src/Mfa/Limit.antt =====
-- internal/mfa: the number of a user's trusted devices.
use certus.Common.{
  length-filter, length-map, string_key, hash_key, ℕ, suc, ◌≤◌, ◌<◌, String, ◌≡◌, refl, sym, ◌∙◌,
  subst, inl, inr, Bool, true, false, none, some, List, [], ◌∷◌, map, arith, ◌==◌, ltb, ok, err,
  Time, Hash, bytes_equal, bytes_equal_refl, eq_of_bytes_equal, Bool-cases, Option-cases, min,
  length, filter, count_if, All, sort_by, All-sort_by, length-sort_by, Unique, Unique-sort_by,
  lookup, put, delete, lookup-delete, IsDict, IsDict-put, IsDict-delete, IsDict-filter,
}
use certus.Mfa.Types.{Reply, TrustedDevice, MemoryRepository, not_found}
use certus.Mfa.Devices.{
  belongs_to, drop_expired, Candidate, candidate_of, earliest_first, evict, store_trusted_device,
}

abbrev pub device_count : String → List (Hash × TrustedDevice) → ℕ
device_count user_id devices = count_if (belongs_to user_id) devices

-- The candidates' keys differ.
abbrev apart : Candidate → Candidate → Bool
apart a b = bytes_equal a.0 b.0

-- The key is that of a device of this user.
abbrev Owned : String → List (Hash × TrustedDevice) → Candidate → Type 0
Owned user_id devices c =
    (d : TrustedDevice) × (lookup c.0 devices ≡ some d) × (d.user_id == user_id ≡ true)

device_count-none :
    (user_id : String) (hash : Hash) (devices : List (Hash × TrustedDevice))
    → lookup hash devices ≡ none
    → device_count user_id (delete hash devices) ≡ device_count user_id devices
device_count-none user_id hash [] h = refl
device_count-none user_id hash ((k, d) ∷ devices) h =
    ground (arith, device_count-none user_id hash devices)

-- Deleting a device of the user leaves one fewer.
device_count-delete :
    (user_id : String) (c : Candidate) (devices : List (Hash × TrustedDevice))
    → IsDict devices
    → Owned user_id devices c
    → suc (device_count user_id (delete c.0 devices)) ≡ device_count user_id devices
device_count-delete user_id c [] h (d, e, mine) = ground arith
device_count-delete user_id c ((k, x) ∷ devices) h (d, e, mine) =
    elim (Bool-cases (bytes_equal k c.0)) [
      | inl hit ↦
          let same_key : k ≡ c.0 = eq_of_bytes_equal k c.0 hit in
          let fresh : lookup c.0 devices ≡ none =
            subst (λ z. lookup z devices ≡ none) same_key h.0 in
          let unchanged = device_count-none user_id c.0 devices fresh in
          let same_one : x ≡ d = ground arith in
          let mine_too : x.user_id == user_id ≡ true =
            subst (λ z. z.user_id == user_id ≡ true) (sym same_one) mine in
          rw hit (ground (arith, unchanged, mine_too))
      | inr miss ↦
          let later : lookup c.0 devices ≡ some d = rw miss at e in
          let rest = device_count-delete user_id c devices h.1 (d, later, mine) in
          rw miss (ground (arith, rest))
    ]

-- The other candidates stay.
Owned-delete :
    (user_id : String) (c : Candidate) (devices : List (Hash × TrustedDevice)) (cs : List Candidate)
    → All (λ (b : Candidate). apart c b ≡ false) cs
    → All (Owned user_id devices) cs
    → All (Owned user_id (delete c.0 devices)) cs
Owned-delete user_id c devices [] other h = tt
Owned-delete user_id c devices (b ∷ cs) other ((d, e, mine), h) = (
  (d, lookup-delete c.0 b.0 devices ∙ rw other.0 e, mine),
  Owned-delete user_id c devices cs other.1 h,
)

-- The loop deletes all candidates but as many as may stay.
evict-device_count :
    (user_id : String) (max_devices : ℕ) (cs : List Candidate)
    (devices : List (Hash × TrustedDevice))
    → IsDict devices
    → Unique apart cs
    → All (Owned user_id devices) cs
    → device_count user_id devices ≡ length cs
    → device_count user_id (evict max_devices cs devices) ≡ min max_devices (length cs)
unfolding evict
evict-device_count user_id max_devices [] devices dict differ owned count = ground (arith, count)
evict-device_count user_id max_devices (c ∷ cs) devices dict differ owned count =
    elim (Bool-cases (ltb max_devices (length (c ∷ cs)))) [
      | inl more ↦
          let fewer = device_count-delete user_id c devices dict owned.0 in
          let rest =
            evict-device_count user_id max_devices cs (delete c.0 devices)
              (IsDict-delete c.0 devices dict) differ.1
              (Owned-delete user_id c devices cs differ.0 owned.1) (omega arith) in
          rw more (ground (arith, rest))
      | inr enough ↦ rw enough (ground (arith, count))
    ]

apart_turn : (a b : Candidate) → apart a b ≡ false → apart b a ≡ false
apart_turn a b h = ground (arith, hash_key.same_iff a.0 b.0, hash_key.same_iff b.0 a.0, h)

-- The candidates that StoreTrustedDevice collects.
abbrev candidates : String → List (Hash × TrustedDevice) → List Candidate
candidates user_id devices = map candidate_of (filter (belongs_to user_id) devices)

candidates-apart :
    (user_id : String) (k : Hash) (t : Time) (devices : List (Hash × TrustedDevice))
    → lookup k devices ≡ none
    → All (λ (b : Candidate). apart (k, t) b ≡ false) (candidates user_id devices)
candidates-apart user_id k t [] h = tt
candidates-apart user_id k t ((i, d) ∷ devices) h =
    let rest = candidates-apart user_id k t devices in
    ground (arith, rest, hash_key.same_iff i k, hash_key.same_iff k i)

candidates-Unique :
    (user_id : String) (devices : List (Hash × TrustedDevice))
    → IsDict devices
    → Unique apart (candidates user_id devices)
candidates-Unique user_id [] h = tt
candidates-Unique user_id ((k, d) ∷ devices) h = elim (Bool-cases (d.user_id == user_id)) [
  | inl e ↦
      rw e (
        candidates-apart user_id k d.last_used_at devices h.0,
        candidates-Unique user_id devices h.1,
      )
  | inr e ↦ rw e (candidates-Unique user_id devices h.1)
]

Owned-tail :
    (user_id : String) (k : Hash) (d : TrustedDevice) (devices : List (Hash × TrustedDevice))
    (cs : List Candidate)
    → All (λ (b : Candidate). apart (k, 0) b ≡ false) cs
    → All (Owned user_id devices) cs
    → All (Owned user_id ((k, d) ∷ devices)) cs
Owned-tail user_id k d devices [] other h = tt
Owned-tail user_id k d devices (b ∷ cs) other ((x, e, mine), h) =
    ((x, rw other.0 e, mine), Owned-tail user_id k d devices cs other.1 h)

candidates-Owned :
    (user_id : String) (devices : List (Hash × TrustedDevice))
    → IsDict devices
    → All (Owned user_id devices) (candidates user_id devices)
candidates-Owned user_id [] h = tt
candidates-Owned user_id ((k, d) ∷ devices) h =
    let rest =
      Owned-tail user_id k d devices (candidates user_id devices)
        (candidates-apart user_id k 0 devices h.0) (candidates-Owned user_id devices h.1) in
    elim (Bool-cases (d.user_id == user_id)) [
      | inl e ↦ rw e ((d, rw (bytes_equal_refl k), e), rest)
      | inr e ↦ rw e rest
    ]

-- StoreTrustedDevice, when it succeeds, leaves the user with at most `maxDevices` trusted devices,
-- if that limit is not zero and no two entries of the map have the same key.
pub store_trusted_device-le :
    (r : MemoryRepository) (device : TrustedDevice) (max_devices : ℕ)
    → IsDict r.trusted_devices
    → 0 < max_devices
    → (store_trusted_device r device max_devices).1 ≡ ok tt
    → device_count device.user_id (store_trusted_device r device max_devices).0.trusted_devices
      ≤ max_devices
unfolding store_trusted_device drop_expired
store_trusted_device-le r device max_devices dict limit success =
    elim (Option-cases (lookup device.user_id r.credentials)) [
      | inl e ↦
          let refused : ◌≡◌ {A = Reply (Unit {0})} (err not_found) (ok tt) =
            rw (e, store_trusted_device) at success in
          ground arith
      | inr (m, e) ↦
          let answer = rw (e, store_trusted_device) at success in
          let on : m.enabled ≡ true = ground arith in
          let stored =
            put device.token_hash device
              (drop_expired device.user_id device.created_at r.trusted_devices) in
          let keys =
            IsDict-put device.token_hash device _ (IsDict-filter _ r.trusted_devices dict) in
          let cs = candidates device.user_id stored in
          let count =
            length-sort_by earliest_first cs
            ∙ length-map candidate_of (filter (belongs_to device.user_id) stored)
            ∙ length-filter (belongs_to device.user_id) stored in
          let kept =
            evict-device_count device.user_id max_devices (sort_by earliest_first cs) stored keys
              (Unique-sort_by earliest_first apart apart_turn cs
                (candidates-Unique device.user_id stored keys))
              (All-sort_by earliest_first (Owned device.user_id stored) cs
                (candidates-Owned device.user_id stored keys))
              (sym count) in
          rw (e, store_trusted_device) (ground (arith, on, limit, kept))
    ]
