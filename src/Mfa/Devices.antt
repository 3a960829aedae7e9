-- ===== src/Mfa/Devices.antt =====
-- internal/mfa/memory_repository.go: the methods on trusted devices.
use certus.Common.{
  string_key, hash_key, ℕ, String, Bool, not, ◌&&◌, ◌||◌, none, some, List, [], ◌∷◌, map, ◌==◌, ltb,
  leb, eqb, if◌then◌else◌, ok, err, Time, after, Hash, bytes_equal, length, filter, count_if,
  sort_by, lookup, put, delete,
}
use certus.Mfa.Types.{
  Reply, TrustedDevice, MemoryRepository, not_found, not_enabled, trusted_device_not_found,
}
use certus.Mfa.Repository.{delete_trusted_devices_locked}

abbrev pub belongs_to : String → Hash × TrustedDevice → Bool
belongs_to user_id e = e.1.user_id == user_id

-- The devices of the user that have expired are deleted.
unfoldable pub drop_expired :
    String → Time → List (Hash × TrustedDevice) → List (Hash × TrustedDevice)
drop_expired user_id now devices =
    filter
      (λ (e : Hash × TrustedDevice). not (belongs_to user_id e && not (after e.1.expires_at now)))
      devices

-- A candidate for eviction: a key, and when it was last used.
abbrev pub Candidate : Type 0
Candidate = Hash × Time

abbrev pub candidate_of : Hash × TrustedDevice → Candidate
candidate_of e = (e.0, e.1.last_used_at)

abbrev pub earliest_first : Candidate → Candidate → Bool
earliest_first a b = leb a.1 b.1

-- The loop `for len(devices) > maxDevices`.
unfoldable pub evict :
    ℕ → List Candidate → List (Hash × TrustedDevice) → List (Hash × TrustedDevice)
evict max_devices [] devices = devices
evict max_devices (c ∷ cs) devices =
    let rest = evict max_devices cs (delete c.0 devices) in
    if ltb max_devices (length (c ∷ cs)) then rest else devices

unfoldable pub store_trusted_device :
    MemoryRepository → TrustedDevice → ℕ → MemoryRepository × Reply (Unit {0})
unfolding drop_expired evict
store_trusted_device r device max_devices = elim (lookup device.user_id r.credentials) [
  | none ↦ (r, err not_found)
  | some m ↦
      if not m.enabled
      then (r, err not_enabled)
      else let stored =
          put device.token_hash device
            (drop_expired device.user_id device.created_at r.trusted_devices) in
        let devices =
          sort_by earliest_first (map candidate_of (filter (belongs_to device.user_id) stored)) in
        (
          record r {
            trusted_devices =
                if eqb max_devices 0 then stored else evict max_devices devices stored;
          },
          ok tt,
        )
]

-- The device after a use: it keeps its expiry.
abbrev pub rotated : Hash → Time → TrustedDevice → TrustedDevice
rotated replacement_hash now d = record d { token_hash = replacement_hash; last_used_at = now }

unfoldable pub rotate_trusted_device :
    MemoryRepository → String → Hash → Hash → Hash → Time → MemoryRepository × Reply Time
rotate_trusted_device r user_id current_hash replacement_hash user_agent_hash now =
    elim (lookup current_hash r.trusted_devices) [
      | none ↦ (r, err trusted_device_not_found)
      | some d ↦
          if not (d.user_id == user_id) || not (bytes_equal d.user_agent_hash user_agent_hash)
          then (r, err trusted_device_not_found)
          else (let left = delete current_hash r.trusted_devices in
              if not (after d.expires_at now)
              then (record r { trusted_devices = left }, err trusted_device_not_found)
              else (
                record r {
                  trusted_devices = put replacement_hash (rotated replacement_hash now d) left;
                },
                ok d.expires_at,
              ))
    ]

unfoldable pub count_trusted_devices : MemoryRepository → String → Time → MemoryRepository × ℕ
unfolding drop_expired
count_trusted_devices r user_id now = (
  record r { trusted_devices = drop_expired user_id now r.trusted_devices },
  count_if (λ (e : Hash × TrustedDevice). belongs_to user_id e && after e.1.expires_at now)
      r.trusted_devices,
)

unfoldable pub delete_trusted_devices : MemoryRepository → String → MemoryRepository × ℕ
unfolding delete_trusted_devices_locked
delete_trusted_devices r user_id =
    let (left, deleted) = delete_trusted_devices_locked user_id r.trusted_devices in
    (record r { trusted_devices = left }, deleted)
