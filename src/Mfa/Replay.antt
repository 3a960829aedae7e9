-- ===== src/Mfa/Replay.antt =====
-- internal/mfa: TOTP codes and the last used step.
use certus.Common.{
  negsuc, pos, string_key, hash_key, String, ◌≡◌, ◌≢◌, inl, inr, true, false, some, List, arith,
  ◌==◌, ok, err, Option-cases, All, All-mono, at_most, at_most_trans, at_most_total, ℤ, lookup, put,
}
use certus.Mfa.Types.{Reply, MemoryCredential, MemoryRepository, invalid_code}
use certus.Mfa.Repository.{cleared, used_at_step, use_totp}
use certus.Mfa.History.{
  run, Every, Every-written, Call, replace_pending_call, replace_codes_call, replace_secret_call,
  enable_call, totp_call, recovery_call, failure_call, store_device_call, rotate_device_call,
  count_devices_call, delete_devices_call, delete_call,
}
use certus.Mfa.Preserved.{Harmless, run-Every}

-- The user's credential, if there is one, has this step or a later one as its last used.
abbrev pub HasPassed : ℤ → MemoryCredential → Type 0
HasPassed used m = at_most used m.last_used_step ≡ true

-- The call enrols nobody under this user's identifier.
abbrev pub EnrolsOther : String → Call → Type 0
EnrolsOther user_id (replace_pending_call c hashes) = c.user_id == user_id ≡ false
EnrolsOther user_id (enable_call u used now) = u == user_id ≡ false
EnrolsOther user_id _ = Unit

EnrolsOther-Harmless :
    (user_id : String) (used : ℤ) (c : Call)
    → EnrolsOther user_id c
    → Harmless user_id (HasPassed used) c
EnrolsOther-Harmless user_id used (replace_pending_call c hashes) other =
    λ hit. ground (arith, other, hit)
EnrolsOther-Harmless user_id used (replace_codes_call u hashes) other = λ hit m h. h
EnrolsOther-Harmless user_id used (replace_secret_call u current replacement) other = λ hit m h. h
EnrolsOther-Harmless user_id used (enable_call u at_step now) other =
    λ hit m h. ground (arith, other, hit)
EnrolsOther-Harmless user_id used (totp_call u later) other = λ hit m fresh h.
    at_most_trans used m.last_used_step later h (at_most_total later m.last_used_step fresh)
EnrolsOther-Harmless user_id used (recovery_call u hash) other = λ hit m h. h
EnrolsOther-Harmless user_id used (failure_call u attempts locked_until) other = λ hit m h. h
EnrolsOther-Harmless user_id used (store_device_call device max_devices) other = tt
EnrolsOther-Harmless user_id used (rotate_device_call u current replacement user_agent now) other =
    tt
EnrolsOther-Harmless user_id used (count_devices_call u now) other = tt
EnrolsOther-Harmless user_id used (delete_devices_call u) other = tt
EnrolsOther-Harmless user_id used (delete_call u) other = tt

All-EnrolsOther :
    (user_id : String) (used : ℤ) (cs : List Call)
    → All (EnrolsOther user_id) cs
    → All (Harmless user_id (HasPassed used)) cs
All-EnrolsOther user_id used cs =
    All-mono (EnrolsOther user_id) (Harmless user_id (HasPassed used)) cs
      (EnrolsOther-Harmless user_id used)

at_most_refl : (a : ℤ) → at_most a a ≡ true
at_most_refl (pos n) = ground arith
at_most_refl (negsuc n) = ground arith

-- A use that succeeds was of an enabled credential, and of a step that had not passed.
pub use_totp_ok :
    (r : MemoryRepository) (user_id : String) (used : ℤ)
    → (use_totp r user_id used).1 ≡ ok tt
    → (m : MemoryCredential) × (lookup user_id r.credentials ≡ some m)
      × (m.enabled ≡ true)
      × (at_most used m.last_used_step ≡ false)
      × ((use_totp r user_id used).0
          ≡ record r { credentials = put user_id (cleared (used_at_step used m)) r.credentials })
unfolding use_totp
use_totp_ok r user_id used success = elim (Option-cases (lookup user_id r.credentials)) [
  | inl e ↦
      let refused : ◌≡◌ {A = Reply (Unit {0})} (err invalid_code) (ok tt) =
        rw (e, use_totp) at success in
      ground arith
  | inr (m, e) ↦
      let answer = rw (e, use_totp) at success in
      let on : m.enabled ≡ true = ground arith in
      let fresh : at_most used m.last_used_step ≡ false = ground arith in
      (m, e, on, fresh, rw (e, use_totp) (ground (arith, on, fresh)))
]

-- After a use that succeeds, the step has passed.
use_totp-HasPassed :
    (r : MemoryRepository) (user_id : String) (used : ℤ)
    → (use_totp r user_id used).1 ≡ ok tt
    → Every user_id (HasPassed used) (use_totp r user_id used).0
use_totp-HasPassed r user_id used success =
    let (m, e, on, fresh, written) = use_totp_ok r user_id used success in
    rw written (
      Every-written user_id (HasPassed used) (cleared (used_at_step used m)) r r.trusted_devices
        (at_most_refl used))

-- What is refused when the step has passed.
use_totp-refused :
    (r : MemoryRepository) (user_id : String) (used later : ℤ)
    → Every user_id (HasPassed used) r
    → at_most later used ≡ true
    → (use_totp r user_id later).1 ≢ ok tt
use_totp-refused r user_id used later h old success =
    let (m, e, on, fresh, written) = use_totp_ok r user_id later success in
    let passed = at_most_trans later used m.last_used_step old (h m e) in
    ground (arith, passed, fresh)

-- Once UseTOTP has accepted a time step for a user, it accepts neither that step nor an earlier one
-- again, whatever calls come in between, unless one of them enrols the user again (ReplacePending or
-- Enable).
pub totp_single_use :
    (r : MemoryRepository) (user_id : String) (used later : ℤ) (cs : List Call)
    → (use_totp r user_id used).1 ≡ ok tt
    → All (EnrolsOther user_id) cs
    → at_most later used ≡ true
    → (use_totp (run (use_totp r user_id used).0 cs) user_id later).1 ≢ ok tt
totp_single_use r user_id used later cs success others old =
    use_totp-refused (run (use_totp r user_id used).0 cs) user_id used later
      (run-Every user_id (HasPassed used) (use_totp r user_id used).0 cs
        (All-EnrolsOther user_id used cs others) (use_totp-HasPassed r user_id used success))
      old
