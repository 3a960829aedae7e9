-- ===== src/Oauth/Grants/DeviceFlow.antt =====
-- internal/oauth/store.go: the device flow.
use certus.Common.{
  ◌<◌, String, ◌≡◌, ◌≢◌, ◌↔◌, ◌⊎◌, inl, inr, true, false, none, some, List, arith, ok, err, Time,
  Hash, Option-cases, find_first, find_first-change_first, visit_first-state, visit_first-result,
  find_first-Grows,
}
use certus.Oauth.Types.{
  DeviceAuthorization, MemoryRepository, grant_not_found, approved, denied, consumed,
}
use certus.Oauth.Devices.{polled, too_early, poll_device, poll_device_authorization}
use certus.Oauth.Operations.{run, Call}
use certus.Oauth.History.Keeps.{KeepsDevice}
use certus.Oauth.History.Steps.{run-Persists}

-- The device is over: its token is handed out, or it is denied.
abbrev pub IsClosed : Hash → String → MemoryRepository → Type 0
IsClosed device_hash client_id r =
    (d : DeviceAuthorization) × (find_first (polled device_hash client_id) r.devices ≡ some d)
    × ((d.status ≡ consumed) ⊎ (d.status ≡ denied))

poll-result :
    (r : MemoryRepository) (device_hash : Hash) (client_id : String) (now : Time)
    → (poll_device_authorization r device_hash client_id now).1
      ≡ elim (find_first (polled device_hash client_id) r.devices) [
        | none ↦ err grant_not_found
        | some d ↦ (poll_device now d).1
      ]
unfolding poll_device_authorization
poll-result r device_hash client_id now = visit_first-result _ _ _ r.devices

-- What a poll needs to be answered with the grant.
pub record IsGranted (d : DeviceAuthorization) (now : Time) : Type 0 where
  pub status : d.status ≡ approved
  pub unexpired : now < d.expires_at
  pub patient : too_early now d ≡ false

poll_device-ok :
    (now : Time) (d a : DeviceAuthorization)
    → (poll_device now d).1 ≡ ok a
    → IsGranted d now × (a ≡ record d { status = consumed; last_poll_at = some now })
unfolding poll_device
poll_device-ok now d a h = ground arith

ok-poll_device :
    (now : Time) (d : DeviceAuthorization)
    → IsGranted d now
    → (poll_device now d).1 ≡ ok (record d { status = consumed; last_poll_at = some now })
unfolding poll_device
ok-poll_device now d v = ground arith

-- `a` is the device that the poll finds, approved, now consumed.
abbrev pub Grants : MemoryRepository → Hash → String → Time → DeviceAuthorization → Type 0
Grants r device_hash client_id now a =
    (d : DeviceAuthorization) × (find_first (polled device_hash client_id) r.devices ≡ some d)
    × IsGranted d now
    × (a ≡ record d { status = consumed; last_poll_at = some now })

-- A poll hands out the grant exactly when the first device of this code and client is approved, has
-- not expired, and was not polled less than its interval ago; the device is consumed by it.
pub poll_ok_iff :
    (r : MemoryRepository) (device_hash : Hash) (client_id : String) (now : Time)
    (a : DeviceAuthorization)
    → ((poll_device_authorization r device_hash client_id now).1 ≡ ok a)
      ↔ Grants r device_hash client_id now a
poll_ok_iff r device_hash client_id now a = (from, to)
  where
    from :
        (poll_device_authorization r device_hash client_id now).1 ≡ ok a
        → Grants r device_hash client_id now a
    from h = elim (Option-cases (find_first (polled device_hash client_id) r.devices)) [
      | inl e ↦ absurd (cc (rw (poll-result r device_hash client_id now, e) at h))
      | inr (d, e) ↦
          let (v, same) =
            poll_device-ok now d a (rw (poll-result r device_hash client_id now, e) at h) in
          (d, e, v, same)
    ]

    to :
        Grants r device_hash client_id now a
        → (poll_device_authorization r device_hash client_id now).1 ≡ ok a
    to (d, e, v, same) =
        rw (poll-result r device_hash client_id now, e, same) (ok-poll_device now d v)

KeepsDevice-polled :
    (device_hash : Hash) (client_id : String) (x y : DeviceAuthorization)
    → KeepsDevice x y
    → polled device_hash client_id y ≡ polled device_hash client_id x
KeepsDevice-polled device_hash client_id x y k = rw (k.device_hash, k.client_id)

closed_stays :
    (x y : DeviceAuthorization)
    → KeepsDevice x y
    → (x.status ≡ consumed) ⊎ (x.status ≡ denied)
    → (y.status ≡ consumed) ⊎ (y.status ≡ denied)
closed_stays x y k h = ground arith

run-IsClosed :
    (device_hash : Hash) (client_id : String) (r : MemoryRepository) (cs : List Call)
    → IsClosed device_hash client_id r
    → IsClosed device_hash client_id (run r cs)
run-IsClosed device_hash client_id r cs (d, e, closed) =
    let (b, found, k) =
      find_first-Grows KeepsDevice (polled device_hash client_id)
        (KeepsDevice-polled device_hash client_id) r.devices (run r cs).devices d
        (run-Persists r cs).devices e in
    (b, found, closed_stays d b k closed)

-- A device that is denied or consumed is never granted again, whatever is called.
closed_never_granted :
    (r : MemoryRepository) (device_hash : Hash) (client_id : String) (cs : List Call) (now : Time)
    (a : DeviceAuthorization)
    → IsClosed device_hash client_id r
    → (poll_device_authorization (run r cs) device_hash client_id now).1 ≢ ok a
closed_never_granted r device_hash client_id cs now a closed h =
    let (d, e, over) = run-IsClosed device_hash client_id r cs closed in
    let (x, f, v, _) = (poll_ok_iff (run r cs) device_hash client_id now a).0 h in
    ground (arith, v.status)

polled_first :
    (now : Time) (device_hash : Hash) (client_id : String) (d : DeviceAuthorization)
    → polled device_hash client_id d ≡ true
    → polled device_hash client_id (poll_device now d).0 ≡ true
unfolding poll_device
polled_first now device_hash client_id d h = ground arith

poll_device-consumes :
    (now : Time) (d : DeviceAuthorization)
    → IsGranted d now
    → (poll_device now d).0.status ≡ consumed
unfolding poll_device
poll_device-consumes now d v = ground arith

poll-IsClosed :
    (r : MemoryRepository) (device_hash : Hash) (client_id : String) (now : Time)
    (a : DeviceAuthorization)
    → (poll_device_authorization r device_hash client_id now).1 ≡ ok a
    → IsClosed device_hash client_id (poll_device_authorization r device_hash client_id now).0
unfolding poll_device_authorization
poll-IsClosed r device_hash client_id now a h =
    let (d, e, v, _) = (poll_ok_iff r device_hash client_id now a).0 h in
    (
      (poll_device now d).0,
      rw visit_first-state (
          find_first-change_first (polled device_hash client_id) _ r.devices d
            (polled_first now device_hash client_id) e),
      inl (poll_device-consumes now d v),
    )

-- A device is granted once: after a successful poll, and whatever is called then, no later poll of
-- the same code and client is granted.
pub device_single_use :
    (r : MemoryRepository) (device_hash : Hash) (client_id : String) (now : Time)
    (a : DeviceAuthorization) (cs : List Call) (later : Time) (b : DeviceAuthorization)
    → (poll_device_authorization r device_hash client_id now).1 ≡ ok a
    → (poll_device_authorization
        (run (poll_device_authorization r device_hash client_id now).0 cs)
        device_hash
        client_id
        later).1
      ≢ ok b
device_single_use r device_hash client_id now a cs later b h =
    closed_never_granted (poll_device_authorization r device_hash client_id now).0 device_hash
      client_id cs later b (poll-IsClosed r device_hash client_id now a h)
