-- ===== src/Mfa/Rotation.antt =====
-- internal/mfa: the rotation of a trusted device's token.
use certus.Common.{
  if-both, string_key, hash_key, ℕ, ◌<◌, String, ◌≡◌, refl, sym, ◌∙◌, subst, ◌≢◌, ◌↔◌, inl, inr,
  true, false, not, none, some, List, [], ◌∷◌, arith, ◌==◌, ltb, eqb, ok, Time, Hash, bytes_equal,
  bytes_equal_refl, Option-cases, length, All, lookup, put, delete, lookup-put, lookup-delete,
  lookup-delete-none, lookup-filter-none,
}
use certus.Mfa.Types.{Reply, TrustedDevice, MemoryRepository}
use certus.Mfa.Repository.{delete_trusted_devices_locked, replace_pending, delete_credential}
use certus.Mfa.Devices.{
  drop_expired, Candidate, evict, store_trusted_device, rotated, rotate_trusted_device,
  count_trusted_devices, delete_trusted_devices,
}
use certus.Mfa.History.{
  step, run, Call, replace_pending_call, replace_codes_call, replace_secret_call, enable_call,
  totp_call, recovery_call, failure_call, store_device_call, rotate_device_call, count_devices_call,
  delete_devices_call, delete_call,
}
use certus.Mfa.Separate.{
  record_failure-devices, use_recovery_code-devices, use_totp-devices, replace_codes-devices,
  replace_secret-devices, enable-devices,
}

-- RotateTrustedDevice succeeds if and only if the token's hash is stored for this user and user agent
-- and has not expired.
rotate_trusted_device_ok_iff :
    (r : MemoryRepository) (user_id : String) (current replacement user_agent : Hash)
    (now expires_at : Time)
    → ((rotate_trusted_device r user_id current replacement user_agent now).1 ≡ ok expires_at) ↔ (
        (d : TrustedDevice) × (lookup current r.trusted_devices ≡ some d)
        × (d.user_id == user_id ≡ true)
        × (bytes_equal d.user_agent_hash user_agent ≡ true)
        × (now < d.expires_at)
        × (d.expires_at ≡ expires_at))
unfolding rotate_trusted_device
rotate_trusted_device_ok_iff r user_id current replacement user_agent now expires_at =
    elim (Option-cases (lookup current r.trusted_devices)) [
      | inl e ↦
          rw (e, rotate_trusted_device) (λ h. ground arith, λ (d, a, b, c, f, g). ground arith)
      | inr (d, e) ↦
          rw (e, rotate_trusted_device)
            (
              λ h. (d, refl, ground arith, ground arith, ground arith, ground arith),
              λ (c, a, mine, agent, live, till).
                  let same_one : c ≡ d = ground arith in
                  let mine_too : d.user_id == user_id ≡ true =
                    subst (λ z. z.user_id == user_id ≡ true) same_one mine in
                  let agent_too : bytes_equal d.user_agent_hash user_agent ≡ true =
                    subst (λ z. bytes_equal z.user_agent_hash user_agent ≡ true) same_one agent in
                  let live_too : now < d.expires_at =
                    subst (λ z. now < z.expires_at) same_one live in
                  let till_too : d.expires_at ≡ expires_at =
                    subst (λ z. z.expires_at ≡ expires_at) same_one till in
                  ground (arith, mine_too, agent_too, live_too, till_too),
            )
    ]

-- The trusted devices after a rotation that succeeds: the old hash is gone, and the new one has the
-- device with its expiry unchanged.
rotate_trusted_device_ok :
    (r : MemoryRepository) (user_id : String) (current replacement user_agent : Hash)
    (now expires_at : Time)
    → (rotate_trusted_device r user_id current replacement user_agent now).1 ≡ ok expires_at
    → (d : TrustedDevice) × (lookup current r.trusted_devices ≡ some d)
      × (d.expires_at ≡ expires_at)
      × ((rotate_trusted_device r user_id current replacement user_agent now).0 ≡ record r {
        trusted_devices =
            put replacement (rotated replacement now d) (delete current r.trusted_devices);
      })
unfolding rotate_trusted_device
rotate_trusted_device_ok r user_id current replacement user_agent now expires_at success =
    let (d, e, mine, agent, live, till) =
      (rotate_trusted_device_ok_iff r user_id current replacement user_agent now expires_at).0
        success in
    (d, e, till, rw (e, rotate_trusted_device) (ground (arith, mine, agent, live)))

-- Nothing is stored under this hash.
abbrev pub IsGone : Hash → MemoryRepository → Type 0
IsGone hash r = lookup hash r.trusted_devices ≡ none

-- The call stores no device under this hash.
abbrev pub MintsOther : Hash → Call → Type 0
MintsOther hash (store_device_call device max_devices) = bytes_equal device.token_hash hash ≡ false
MintsOther hash (rotate_device_call user_id current replacement user_agent now) =
    bytes_equal replacement hash ≡ false
MintsOther hash _ = Unit

put-none :
    (hash k : Hash) (d : TrustedDevice) (devices : List (Hash × TrustedDevice))
    → bytes_equal k hash ≡ false
    → lookup hash devices ≡ none
    → lookup hash (put k d devices) ≡ none
put-none hash k d devices other h = lookup-put k hash d devices ∙ rw other h

evict-none :
    (hash : Hash) (max_devices : ℕ) (cs : List Candidate) (devices : List (Hash × TrustedDevice))
    → lookup hash devices ≡ none
    → lookup hash (evict max_devices cs devices) ≡ none
unfolding evict
evict-none hash max_devices [] devices h = h
evict-none hash max_devices (c ∷ cs) devices h =
    if-both (λ (z : List (Hash × TrustedDevice)). lookup hash z ≡ none)
      (ltb max_devices (length (c ∷ cs))) _ _
      (λ more.
        evict-none hash max_devices cs (delete c.0 devices) (lookup-delete-none c.0 hash devices h))
      (λ enough. h)

store_device-IsGone :
    (hash : Hash) (r : MemoryRepository) (device : TrustedDevice) (max_devices : ℕ)
    → bytes_equal device.token_hash hash ≡ false
    → IsGone hash r
    → IsGone hash (store_trusted_device r device max_devices).0
unfolding store_trusted_device drop_expired
store_device-IsGone hash r device max_devices other h =
    elim (Option-cases (lookup device.user_id r.credentials)) [
      | inl e ↦ rw (e, store_trusted_device) h
      | inr (m, e) ↦
          let stored =
            put-none hash device.token_hash device _ other
              (lookup-filter-none _ hash r.trusted_devices h) in
          rw (e, store_trusted_device)
            (if-both (λ (z : MemoryRepository × Reply (Unit {0})). IsGone hash z.0) (not m.enabled)
              _ _ (λ off. h)
              (λ on.
                if-both (λ (z : List (Hash × TrustedDevice)). lookup hash z ≡ none)
                  (eqb max_devices 0) _ _ (λ all. stored)
                  (λ few. evict-none hash max_devices _ _ stored)))
    ]

rotate_device-IsGone :
    (hash : Hash) (r : MemoryRepository) (user_id : String) (current replacement user_agent : Hash)
    (now : Time)
    → bytes_equal replacement hash ≡ false
    → IsGone hash r
    → IsGone hash (rotate_trusted_device r user_id current replacement user_agent now).0
unfolding rotate_trusted_device
rotate_device-IsGone hash r user_id current replacement user_agent now other h =
    elim (Option-cases (lookup current r.trusted_devices)) [
      | inl e ↦ rw (e, rotate_trusted_device) h
      | inr (d, e) ↦
          let left = lookup-delete-none current hash r.trusted_devices h in
          let written = put-none hash replacement (rotated replacement now d) _ other left in
          rw (e, rotate_trusted_device) (ground (arith, h, left, written))
    ]

delete_credential-IsGone :
    (hash : Hash) (r : MemoryRepository) (user_id : String)
    → IsGone hash r
    → IsGone hash (delete_credential r user_id).0
unfolding delete_credential delete_trusted_devices_locked
delete_credential-IsGone hash r user_id h = elim (Option-cases (lookup user_id r.credentials)) [
  | inl e ↦ rw (e, delete_credential) h
  | inr (m, e) ↦ rw (e, delete_credential) (lookup-filter-none _ hash r.trusted_devices h)
]

step-IsGone :
    (hash : Hash) (r : MemoryRepository) (c : Call)
    → MintsOther hash c
    → IsGone hash r
    → IsGone hash (step r c)
unfolding step replace_pending count_trusted_devices delete_trusted_devices
    delete_trusted_devices_locked drop_expired
step-IsGone hash r (replace_pending_call credential hashes) other h =
    lookup-filter-none _ hash r.trusted_devices h
step-IsGone hash r (replace_codes_call u hashes) other h = rw (replace_codes-devices r u hashes) h
step-IsGone hash r (replace_secret_call u current replacement) other h =
    rw (replace_secret-devices r u current replacement) h
step-IsGone hash r (enable_call u used now) other h = rw (enable-devices r u used now) h
step-IsGone hash r (totp_call u used) other h = rw (use_totp-devices r u used) h
step-IsGone hash r (recovery_call u g) other h = rw (use_recovery_code-devices r u g) h
step-IsGone hash r (failure_call u attempts locked_until) other h =
    rw (record_failure-devices r u attempts locked_until) h
step-IsGone hash r (store_device_call device max_devices) other h =
    store_device-IsGone hash r device max_devices other h
step-IsGone hash r (rotate_device_call u current replacement user_agent now) other h =
    rotate_device-IsGone hash r u current replacement user_agent now other h
step-IsGone hash r (count_devices_call u now) other h =
    lookup-filter-none _ hash r.trusted_devices h
step-IsGone hash r (delete_devices_call u) other h = lookup-filter-none _ hash r.trusted_devices h
step-IsGone hash r (delete_call u) other h = delete_credential-IsGone hash r u h

run-IsGone :
    (hash : Hash) (r : MemoryRepository) (cs : List Call)
    → All (MintsOther hash) cs
    → IsGone hash r
    → IsGone hash (run r cs)
unfolding run
run-IsGone hash r [] others h = h
run-IsGone hash r (c ∷ cs) others h =
    run-IsGone hash (step r c) cs others.1 (step-IsGone hash r c others.0 h)

-- A trusted device's token that has been exchanged for another one is never accepted again, by any
-- user, from any user agent, whatever calls come in between, if no call stores a device under the
-- hash of that token.
pub trusted_token_single_use :
    (r : MemoryRepository) (user_id other_user : String)
    (current replacement user_agent fresh other_agent : Hash) (now later expires_at until : Time)
    (cs : List Call)
    → (rotate_trusted_device r user_id current replacement user_agent now).1 ≡ ok expires_at
    → bytes_equal replacement current ≡ false
    → All (MintsOther current) cs
    → (rotate_trusted_device
        (run (rotate_trusted_device r user_id current replacement user_agent now).0 cs)
        other_user
        current
        fresh
        other_agent
        later).1
      ≢ ok until
trusted_token_single_use r user_id other_user current replacement user_agent fresh other_agent now
      later expires_at until cs success distinct others again =
    let (d, e, till, written) =
      rotate_trusted_device_ok r user_id current replacement user_agent now expires_at success in
    let gone : IsGone current
        (rotate_trusted_device r user_id current replacement user_agent now).0 =
      rw written (
        put-none current replacement (rotated replacement now d) _ distinct
          (lookup-delete current current r.trusted_devices ∙ rw (bytes_equal_refl current))) in
    let (c, there, mine, agent, live, till_then) =
      (rotate_trusted_device_ok_iff _ other_user current fresh other_agent later until).0 again in
    let nothing = sym (run-IsGone current _ cs others gone) ∙ there in ground (arith, nothing)
