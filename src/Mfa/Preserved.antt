-- ===== src/Mfa/Preserved.antt =====
-- internal/mfa/memory_repository.go: each write and one user's credential.
use certus.Common.{
  if-both, string_key, hash_key, ℕ, String, ◌≡◌, subst, inl, inr, Bool, true, false, not, Option,
  some, List, [], ◌∷◌, arith, ◌==◌, eq_iff, Time, Hash, bytes_equal, Option-cases, any, All,
  at_most, ℤ, lookup, put,
}
use certus.Mfa.Types.{Reply, TrustedDevice, MemoryCredential, MemoryRepository}
use certus.Mfa.Repository.{
  use_recovery_code, used_at_step, use_totp, record_failure, delete_trusted_devices_locked,
  replace_pending, replace_recovery_codes, with_secret, replace_secret_ciphertext, cleared,
  enabled_at, enable, spend, failed_with, delete_credential,
}
use certus.Mfa.Devices.{
  store_trusted_device, rotate_trusted_device, count_trusted_devices, delete_trusted_devices,
}
use certus.Mfa.History.{
  step, run, Every, Every-put, Every-delete, Call, replace_pending_call, replace_codes_call,
  replace_secret_call, enable_call, totp_call, recovery_call, failure_call, store_device_call,
  rotate_device_call, count_devices_call, delete_devices_call, delete_call,
}

-- The methods on trusted devices leave the credentials alone.
store_device-credentials :
    (r : MemoryRepository) (device : TrustedDevice) (max_devices : ℕ)
    → (store_trusted_device r device max_devices).0.credentials ≡ r.credentials
unfolding store_trusted_device
store_device-credentials r device max_devices =
    elim (Option-cases (lookup device.user_id r.credentials)) [
      | inl e ↦ rw (e, store_trusted_device)
      | inr (m, e) ↦ rw (e, store_trusted_device) (ground arith)
    ]

rotate_device-credentials :
    (r : MemoryRepository) (u : String) (current replacement user_agent : Hash) (now : Time)
    → (rotate_trusted_device r u current replacement user_agent now).0.credentials ≡ r.credentials
unfolding rotate_trusted_device
rotate_device-credentials r u current replacement user_agent now =
    elim (Option-cases (lookup current r.trusted_devices)) [
      | inl e ↦ rw (e, rotate_trusted_device)
      | inr (d, e) ↦ rw (e, rotate_trusted_device) (ground arith)
    ]

module _ (user_id : String) (P : MemoryCredential → Type 0) where
  -- A write of this form keeps the property, if it is to this user's credential.
  abbrev pub Keeps : String → (MemoryCredential → MemoryCredential) → Type 0
  Keeps u f = u == user_id ≡ true → (m : MemoryCredential) → P m → P (f m)

  abbrev pub Harmless : Call → Type 0
  Harmless (replace_pending_call c hashes) =
      c.user_id == user_id ≡ true → P (record { credential = c; stored_codes = hashes })
  Harmless (replace_codes_call u hashes) = Keeps u (λ m. record m { stored_codes = hashes })
  Harmless (replace_secret_call u current replacement) = Keeps u (with_secret replacement)
  Harmless (enable_call u used now) = Keeps u (enabled_at used now)
  Harmless (totp_call u used) =
      u == user_id ≡ true
      → (m : MemoryCredential) → at_most used m.last_used_step ≡ false
      → P m
      → P (cleared (used_at_step used m))
  Harmless (recovery_call u hash) = Keeps u (λ m. cleared (spend hash m))
  Harmless (failure_call u attempts locked_until) = Keeps u (failed_with attempts locked_until)
  Harmless _ = Unit

  Every-write :
      (u : String) (m v : MemoryCredential) (r : MemoryRepository)
      → lookup u r.credentials ≡ some m
      → (u == user_id ≡ true → P m → P v)
      → Every user_id P r
      → Every user_id P (record r { credentials = put u v r.credentials })
  Every-write u m v r e keep h =
      Every-put user_id P u v r r.trusted_devices
        (λ hit.
          keep hit
            (h m (subst (λ z. lookup z r.credentials ≡ some m) ((eq_iff u user_id).0 hit) e)))
        h

  abbrev State : MemoryRepository × Reply (Unit {0}) → Type 0
  State z = Every user_id P z.0

  replace_codes-Every :
      (u : String) (hashes : List Hash) (r : MemoryRepository)
      → Keeps u (λ m. record m { stored_codes = hashes })
      → Every user_id P r
      → Every user_id P (replace_recovery_codes r u hashes).0
  unfolding replace_recovery_codes
  replace_codes-Every u hashes r keep h = elim (Option-cases (lookup u r.credentials)) [
    | inl e ↦ rw (e, replace_recovery_codes) h
    | inr (m, e) ↦
        rw (e, replace_recovery_codes)
          (if-both State (not m.enabled) _ _ (λ off. h)
            (λ on. Every-write u m _ r e (λ hit p. keep hit m p) h))
  ]

  replace_secret-Every :
      (u : String) (current replacement : List ℕ) (r : MemoryRepository)
      → Keeps u (with_secret replacement)
      → Every user_id P r
      → Every user_id P (replace_secret_ciphertext r u current replacement).0
  unfolding replace_secret_ciphertext
  replace_secret-Every u current replacement r keep h =
      elim (Option-cases (lookup u r.credentials)) [
        | inl e ↦ rw (e, replace_secret_ciphertext) h
        | inr (m, e) ↦
            rw (e, replace_secret_ciphertext)
              (if-both (λ (z : MemoryRepository × Bool). Every user_id P z.0)
                (not (bytes_equal m.secret current)) _ _ (λ other. h)
                (λ equal. Every-write u m _ r e (λ hit p. keep hit m p) h))
      ]

  enable-Every :
      (u : String) (used : ℤ) (now : Time) (r : MemoryRepository)
      → Keeps u (enabled_at used now)
      → Every user_id P r
      → Every user_id P (enable r u used now).0
  unfolding enable
  enable-Every u used now r keep h = elim (Option-cases (lookup u r.credentials)) [
    | inl e ↦ rw (e, enable) h
    | inr (m, e) ↦ rw (e, enable) (Every-write u m _ r e (λ hit p. keep hit m p) h)
  ]

  use_totp-Every :
      (u : String) (used : ℤ) (r : MemoryRepository)
      → Harmless (totp_call u used)
      → Every user_id P r
      → Every user_id P (use_totp r u used).0
  unfolding use_totp
  use_totp-Every u used r keep h = elim (Option-cases (lookup u r.credentials)) [
    | inl e ↦ rw (e, use_totp) h
    | inr (m, e) ↦
        rw (e, use_totp)
          (if-both State (not m.enabled) _ _ (λ off. h)
            (λ on.
              if-both State (at_most used m.last_used_step) _ _ (λ old. h)
                (λ fresh. Every-write u m _ r e (λ hit p. keep hit m fresh p) h)))
  ]

  use_recovery_code-Every :
      (u : String) (hash : Hash) (r : MemoryRepository)
      → Keeps u (λ m. cleared (spend hash m))
      → Every user_id P r
      → Every user_id P (use_recovery_code r u hash).0
  unfolding use_recovery_code
  use_recovery_code-Every u hash r keep h = elim (Option-cases (lookup u r.credentials)) [
    | inl e ↦ rw (e, use_recovery_code) h
    | inr (m, e) ↦
        rw (e, use_recovery_code)
          (if-both State (not m.enabled) _ _ (λ off. h)
            (λ on.
              if-both State (any (λ (current : Hash). bytes_equal current hash) m.stored_codes) _ _
                (λ there. Every-write u m _ r e (λ hit p. keep hit m p) h) (λ gone. h)))
  ]

  record_failure-Every :
      (u : String) (attempts : ℕ) (locked_until : Option Time) (r : MemoryRepository)
      → Keeps u (failed_with attempts locked_until)
      → Every user_id P r
      → Every user_id P (record_failure r u attempts locked_until).0
  unfolding record_failure
  record_failure-Every u attempts locked_until r keep h =
      elim (Option-cases (lookup u r.credentials)) [
        | inl e ↦ rw (e, record_failure) h
        | inr (m, e) ↦ rw (e, record_failure) (Every-write u m _ r e (λ hit p. keep hit m p) h)
      ]

  delete_credential-Every :
      (u : String) (r : MemoryRepository)
      → Every user_id P r
      → Every user_id P (delete_credential r u).0
  unfolding delete_credential
  delete_credential-Every u r h = elim (Option-cases (lookup u r.credentials)) [
    | inl e ↦ rw (e, delete_credential) h
    | inr (m, e) ↦ rw (e, delete_credential) (Every-delete user_id P u r r.trusted_devices h)
  ]

  pub step-Every :
      (r : MemoryRepository) (c : Call)
      → Harmless c
      → Every user_id P r
      → Every user_id P (step r c)
  unfolding step replace_pending count_trusted_devices delete_trusted_devices
      delete_trusted_devices_locked
  step-Every r (replace_pending_call credential hashes) safe h =
      Every-put user_id P credential.user_id _ r r.trusted_devices safe h
  step-Every r (replace_codes_call u hashes) safe h = replace_codes-Every u hashes r safe h
  step-Every r (replace_secret_call u current replacement) safe h =
      replace_secret-Every u current replacement r safe h
  step-Every r (enable_call u used now) safe h = enable-Every u used now r safe h
  step-Every r (totp_call u used) safe h = use_totp-Every u used r safe h
  step-Every r (recovery_call u hash) safe h = use_recovery_code-Every u hash r safe h
  step-Every r (failure_call u attempts locked_until) safe h =
      record_failure-Every u attempts locked_until r safe h
  step-Every r (store_device_call device max_devices) safe h =
      rw (store_device-credentials r device max_devices) h
  step-Every r (rotate_device_call u current replacement user_agent now) safe h =
      rw (rotate_device-credentials r u current replacement user_agent now) h
  step-Every r (count_devices_call u now) safe h = h
  step-Every r (delete_devices_call u) safe h = h
  step-Every r (delete_call u) safe h = delete_credential-Every u r h

  -- Calls that are harmless to the property keep it.
  pub run-Every :
      (r : MemoryRepository) (cs : List Call)
      → All Harmless cs
      → Every user_id P r
      → Every user_id P (run r cs)
  unfolding run
  run-Every r [] harmless h = h
  run-Every r (c ∷ cs) harmless h = run-Every (step r c) cs harmless.1 (step-Every r c harmless.0 h)
