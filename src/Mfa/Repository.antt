-- ===== src/Mfa/Repository.antt =====
-- internal/mfa/memory_repository.go: the methods on credentials.
use certus.Common.{
  string_key, hash_key, ℕ, String, Bool, true, false, not, Option, none, some, List, map, ◌==◌,
  if◌then◌else◌, ok, err, Time, Hash, bytes_equal, length, filter, count_if, any, remove_first,
  at_most, ℤ, lookup, put, delete,
}
use certus.Mfa.Types.{
  Reply, Credential, TrustedDevice, SecretRecord, MemoryCredential, MemoryRepository, not_found,
  invalid_code, replay, not_enabled,
}

unfoldable pub delete_trusted_devices_locked :
    String → List (Hash × TrustedDevice) → List (Hash × TrustedDevice) × ℕ
delete_trusted_devices_locked user_id devices = (
  filter (λ (e : Hash × TrustedDevice). not (e.1.user_id == user_id)) devices,
  count_if (λ (e : Hash × TrustedDevice). e.1.user_id == user_id) devices,
)

unfoldable pub find : MemoryRepository → String → Reply Credential
find r user_id = elim (lookup user_id r.credentials) [
  | none ↦ err not_found
  | some m ↦ ok (record m.credential { recovery_codes = length m.stored_codes })
]

unfoldable pub replace_pending : MemoryRepository → Credential → List Hash → MemoryRepository
unfolding delete_trusted_devices_locked
replace_pending r credential hashes = record {
  credentials =
      put credential.user_id (record { credential = credential; stored_codes = hashes })
        r.credentials;
  trusted_devices = (delete_trusted_devices_locked credential.user_id r.trusted_devices).0;
}

unfoldable pub replace_recovery_codes :
    MemoryRepository → String → List Hash → MemoryRepository × Reply (Unit {0})
replace_recovery_codes r user_id hashes = elim (lookup user_id r.credentials) [
  | none ↦ (r, err not_found)
  | some m ↦ if not m.enabled then (r, err not_enabled) else (
    record r { credentials = put user_id (record m { stored_codes = hashes }) r.credentials },
    ok tt,
  )
]

unfoldable pub list_secret_ciphertexts : MemoryRepository → List SecretRecord
list_secret_ciphertexts r =
    map
      (λ (e : String × MemoryCredential). record { user_id = e.1.user_id; ciphertext = e.1.secret })
      r.credentials

abbrev pub with_secret : List ℕ → MemoryCredential → MemoryCredential
with_secret replacement m = record m { credential = record m.credential { secret = replacement } }

unfoldable pub replace_secret_ciphertext :
    MemoryRepository → String → List ℕ → List ℕ → MemoryRepository × Bool
replace_secret_ciphertext r user_id current replacement = elim (lookup user_id r.credentials) [
  | none ↦ (r, false)
  | some m ↦
      if not (bytes_equal m.secret current)
      then (r, false)
      else (record r { credentials = put user_id (with_secret replacement m) r.credentials }, true)
]

-- What a use of a code or an enrolment clears.
abbrev pub cleared : MemoryCredential → MemoryCredential
cleared m = record m {
  credential = record m.credential { failed_attempts = 0; locked_until = none };
}

abbrev pub used_at_step : ℤ → MemoryCredential → MemoryCredential
used_at_step used m = record m { credential = record m.credential { last_used_step = used } }

abbrev pub enabled_at : ℤ → Time → MemoryCredential → MemoryCredential
enabled_at used now m =
    let on = record m {
      credential = record m.credential { enabled = true; verified_at = some now };
    } in
    cleared (used_at_step used on)

unfoldable pub enable : MemoryRepository → String → ℤ → Time → MemoryRepository × Reply (Unit {0})
enable r user_id used now = elim (lookup user_id r.credentials) [
  | none ↦ (r, err not_found)
  | some m ↦ (record r { credentials = put user_id (enabled_at used now m) r.credentials }, ok tt)
]

unfoldable pub use_totp : MemoryRepository → String → ℤ → MemoryRepository × Reply (Unit {0})
use_totp r user_id used = elim (lookup user_id r.credentials) [
  | none ↦ (r, err invalid_code)
  | some m ↦
      if not m.enabled
      then (r, err invalid_code)
      else if at_most used m.last_used_step
      then (r, err replay)
      else (
        record r { credentials = put user_id (cleared (used_at_step used m)) r.credentials },
        ok tt,
      )
]

-- `append(codes[:index], codes[index+1:]...)` at the first code with this hash.
abbrev pub spend : Hash → MemoryCredential → MemoryCredential
spend hash m = record m {
  stored_codes = remove_first (λ (current : Hash). bytes_equal current hash) m.stored_codes;
}

unfoldable pub use_recovery_code :
    MemoryRepository → String → Hash → MemoryRepository × Reply (Unit {0})
use_recovery_code r user_id hash = elim (lookup user_id r.credentials) [
  | none ↦ (r, err invalid_code)
  | some m ↦
      if not m.enabled
      then (r, err invalid_code)
      else if any (λ (current : Hash). bytes_equal current hash) m.stored_codes
      then (record r { credentials = put user_id (cleared (spend hash m)) r.credentials }, ok tt)
      else (r, err invalid_code)
]

abbrev pub failed_with : ℕ → Option Time → MemoryCredential → MemoryCredential
failed_with attempts locked_until m = record m {
  credential = record m.credential { failed_attempts = attempts; locked_until = locked_until };
}

unfoldable pub record_failure :
    MemoryRepository → String → ℕ → Option Time → MemoryRepository × Reply (Unit {0})
record_failure r user_id attempts locked_until = elim (lookup user_id r.credentials) [
  | none ↦ (r, err not_found)
  | some m ↦ (
    record r { credentials = put user_id (failed_with attempts locked_until m) r.credentials },
    ok tt,
  )
]

-- Delete
unfoldable pub delete_credential : MemoryRepository → String → MemoryRepository × Reply (Unit {0})
unfolding delete_trusted_devices_locked
delete_credential r user_id = elim (lookup user_id r.credentials) [
  | none ↦ (r, err not_found)
  | some m ↦ (
    record {
      credentials = delete user_id r.credentials;
      trusted_devices = (delete_trusted_devices_locked user_id r.trusted_devices).0;
    },
    ok tt,
  )
]
