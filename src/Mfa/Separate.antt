-- ===== src/Mfa/Separate.antt =====
-- internal/mfa/memory_repository.go: the methods on credentials, and the trusted devices.
use certus.Common.{
  string_key, hash_key, ℕ, String, ◌≡◌, inl, inr, Option, List, arith, Time, Hash, Option-cases, ℤ,
  lookup,
}
use certus.Mfa.Types.{MemoryRepository}
use certus.Mfa.Repository.{
  record_failure, use_totp, use_recovery_code, replace_recovery_codes, replace_secret_ciphertext,
  enable,
}

pub replace_codes-devices :
    (r : MemoryRepository) (u : String) (hashes : List Hash)
    → (replace_recovery_codes r u hashes).0.trusted_devices ≡ r.trusted_devices
unfolding replace_recovery_codes
replace_codes-devices r u hashes = elim (Option-cases (lookup u r.credentials)) [
  | inl e ↦ rw (e, replace_recovery_codes)
  | inr (m, e) ↦ rw (e, replace_recovery_codes) (ground arith)
]

pub replace_secret-devices :
    (r : MemoryRepository) (u : String) (current replacement : List ℕ)
    → (replace_secret_ciphertext r u current replacement).0.trusted_devices ≡ r.trusted_devices
unfolding replace_secret_ciphertext
replace_secret-devices r u current replacement = elim (Option-cases (lookup u r.credentials)) [
  | inl e ↦ rw (e, replace_secret_ciphertext)
  | inr (m, e) ↦ rw (e, replace_secret_ciphertext) (ground arith)
]

pub enable-devices :
    (r : MemoryRepository) (u : String) (used : ℤ) (now : Time)
    → (enable r u used now).0.trusted_devices ≡ r.trusted_devices
unfolding enable
enable-devices r u used now = elim (Option-cases (lookup u r.credentials)) [
  | inl e ↦ rw (e, enable)
  | inr (m, e) ↦ rw (e, enable)
]

pub use_totp-devices :
    (r : MemoryRepository) (u : String) (used : ℤ)
    → (use_totp r u used).0.trusted_devices ≡ r.trusted_devices
unfolding use_totp
use_totp-devices r u used = elim (Option-cases (lookup u r.credentials)) [
  | inl e ↦ rw (e, use_totp)
  | inr (m, e) ↦ rw (e, use_totp) (ground arith)
]

pub use_recovery_code-devices :
    (r : MemoryRepository) (u : String) (g : Hash)
    → (use_recovery_code r u g).0.trusted_devices ≡ r.trusted_devices
unfolding use_recovery_code
use_recovery_code-devices r u g = elim (Option-cases (lookup u r.credentials)) [
  | inl e ↦ rw (e, use_recovery_code)
  | inr (m, e) ↦ rw (e, use_recovery_code) (ground arith)
]

pub record_failure-devices :
    (r : MemoryRepository) (u : String) (attempts : ℕ) (locked_until : Option Time)
    → (record_failure r u attempts locked_until).0.trusted_devices ≡ r.trusted_devices
unfolding record_failure
record_failure-devices r u attempts locked_until = elim (Option-cases (lookup u r.credentials)) [
  | inl e ↦ rw (e, record_failure)
  | inr (m, e) ↦ rw (e, record_failure)
]
