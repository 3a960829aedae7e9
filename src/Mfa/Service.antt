-- ===== src/Mfa/Service.antt =====
-- internal/mfa/mfa.go: the service's methods on second factors. Each call of the clock is an argument.
use certus.Common.{
  string_key, hash_key, ℕ, ◌+◌, ◌-◌, ◌*◌, String, Bool, true, false, not, Option, none, some, List,
  [], ◌∷◌, leb, if◌then◌else◌, ok, err, Time, after, second, bytes_equal, is_nil, min, at_most,
  successor, predecessor, ℤ,
}
use certus.Mfa.Types.{
  Reply, Credential, Status, MemoryRepository, not_found, unavailable, invalid_code, locked, replay,
}
use certus.Mfa.Repository.{use_recovery_code, use_totp, record_failure, find, enable}
use certus.Mfa.Devices.{count_trusted_devices}
use certus.Mfa.Codes.{
  generate_totp, normalize_code, hash_recovery_code, totp_code_pattern, byte_length, step_at,
  Crypto,
}

-- The loop of matchTOTP over the steps that it tries.
unfoldable pub match_steps : Crypto → List ℕ → ℤ → List ℕ → List ℤ → Reply ℤ
match_steps c secret last code [] = err invalid_code
match_steps c secret last code (step ∷ steps) =
    let rest = match_steps c secret last code steps in
    if bytes_equal (generate_totp c secret step) (normalize_code c code)
    then if at_most step last then err replay else ok step
    else rest

unfoldable pub match_totp : Crypto → Credential → List ℕ → Time → Reply ℤ
unfolding match_steps
match_totp c credential code now =
    if not c.available
    then err unavailable
    else elim (c.decrypt credential.user_id credential.secret) [
      | err e ↦ err e
      | ok secret ↦
          match_steps c secret credential.last_used_step code
            (step_at now ∷ predecessor (step_at now) ∷ successor (step_at now) ∷ [])
    ]

unfoldable pub requires_challenge : Crypto → MemoryRepository → String → Reply Bool
requires_challenge c r user_id = elim (find r user_id) [
  | err not_found ↦ ok false
  | err e ↦ err e
  | ok credential ↦
      if not credential.enabled
      then ok false
      else if not c.available
      then err unavailable
      else ok true
]

-- Status; the repository is read by Find and then by CountTrustedDevices.
unfoldable pub status : Crypto → MemoryRepository → String → Time → MemoryRepository × Reply Status
status c r user_id now = elim (find r user_id) [
  | err not_found ↦ (
    r,
    ok (record {
      available = c.available;
      enabled = false;
      pending = false;
      verified_at = none;
      recovery_codes = 0;
      trusted_devices = 0;
    }),
  )
  | err e ↦ (r, err e)
  | ok credential ↦
      let (after_count, n) =
        if credential.enabled then count_trusted_devices r user_id now else (r, 0) in
      (
        after_count,
        ok (record {
          available = c.available;
          enabled = credential.enabled;
          pending = not credential.enabled;
          verified_at = credential.verified_at;
          recovery_codes = credential.recovery_codes;
          trusted_devices = n;
        }),
      )
]

-- The service's Enable, with the clock of the match and of the write.
unfoldable pub enable_service :
    Crypto → MemoryRepository → String → List ℕ → Time → Time → MemoryRepository × Reply (Unit {0})
enable_service c r user_id code match_now now = elim (find r user_id) [
  | err e ↦ (r, err e)
  | ok credential ↦
      if credential.enabled then (r, ok tt) else elim (match_totp c credential code match_now) [
        | err e ↦ (r, err e)
        | ok step ↦ enable r user_id step now
      ]
]

-- The lock after so many failures in a row: none before the fifth, then five minutes more each time,
-- up to an hour.
abbrev pub minute : ℕ
minute = 60 * second

unfoldable pub lock_after : ℕ → Time → Option Time
lock_after attempts now =
    if leb 5 attempts then some (now + min (attempts - 4) 12 * (5 * minute)) else none

-- The end of Verify, for a code that did not match.
unfoldable pub fail : MemoryRepository → String → ℕ → Time → MemoryRepository × Reply (Unit {0})
unfolding lock_after
fail r user_id attempts now =
    let locked_until = lock_after attempts now in
    let (failed, answer) = record_failure r user_id attempts locked_until in
    (
      failed,
      elim answer [
        | err e ↦ err e
        | ok _ ↦ if is_nil locked_until then err invalid_code else err locked
      ],
    )

abbrev pub is_locked : Credential → Time → Bool
is_locked credential now = elim credential.locked_until [ none ↦ false | some t ↦ after t now ]

-- Verify after matchTOTP: a step that matches is used, a replay is reported, all else is a failure.
abbrev pub after_match :
    MemoryRepository
    → String
    → MemoryRepository × Reply (Unit {0})
    → Reply ℤ
    → MemoryRepository × Reply (Unit {0})
after_match r user_id failed (ok step) = use_totp r user_id step
after_match r user_id failed (err replay) = (r, err replay)
after_match r user_id failed (err _) = failed

-- Verify after UseRecoveryCode.
abbrev pub after_recovery :
    MemoryRepository × Reply (Unit {0})
    → MemoryRepository × Reply (Unit {0})
    → MemoryRepository × Reply (Unit {0})
after_recovery failed (used, ok _) = (used, ok tt)
after_recovery failed (used, err invalid_code) = failed
after_recovery failed (used, err e) = (used, err e)

-- Verify after Find returned an enabled credential that is not locked, with the code normalized.
-- `match_now` is the clock of matchTOTP.
unfoldable pub verify_code :
    Crypto
    → MemoryRepository
    → Credential
    → String
    → List ℕ
    → Time
    → Time
    → MemoryRepository × Reply (Unit {0})
unfolding fail
verify_code c r credential user_id normalized now match_now =
    let failed = fail r user_id (credential.failed_attempts + 1) now in
    if totp_code_pattern normalized
    then after_match r user_id failed (match_totp c credential normalized match_now)
    else if leb 20 (byte_length normalized)
    then after_recovery failed (use_recovery_code r user_id (hash_recovery_code c normalized))
    else failed

unfoldable pub verify :
    Crypto → MemoryRepository → String → List ℕ → Time → Time → MemoryRepository × Reply (Unit {0})
unfolding verify_code
verify c r user_id code now match_now = elim (find r user_id) [
  | err e ↦ (r, err invalid_code)
  | ok credential ↦
      if not credential.enabled
      then (r, err invalid_code)
      else if is_locked credential now
      then (r, err locked)
      else verify_code c r credential user_id (normalize_code c code) now match_now
]
