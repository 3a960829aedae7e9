-- ===== src/Mfa/Accepted.antt =====
-- internal/mfa/mfa.go: Verify and a recovery code that was issued.
use certus.Common.{
  string_key, ℕ, ◌+◌, ◌≤◌, String, ◌≡◌, refl, sym, ap, ◌∙◌, true, false, some, List, [], ◌∷◌, ◌++◌,
  arith, leb, ok, err, Time, Hash, bytes_equal, length, any, All, All-mono, lookup,
}
use certus.Mfa.Types.{Reply, Credential, MemoryCredential, MemoryRepository}
use certus.Mfa.Codes.{
  normalize_code, recovery_prefix, hash_recovery_code, totp_code_pattern, byte_length, Crypto,
}
use certus.Mfa.Repository.{find, use_recovery_code}
use certus.Mfa.Service.{fail, is_locked, after_recovery, verify_code, verify}
use certus.Mfa.Enrolment.{base32, grouped, new_recovery_code}
use certus.Mfa.Issued.{
  IsDigit32, IsCodeChar, base32-IsDigit32, length-base32, grouped-IsCodeChar, filter-IsDigit32,
  filter-grouped, trim_codes-code,
}

-- strings.ToUpper leaves upper-case letters, digits and dashes alone.
abbrev pub KeepsUpper : Crypto → Type 0
KeepsUpper c = (xs : List ℕ) → All IsCodeChar xs → c.to_upper xs ≡ xs

IsDigit32-IsCodeChar : (xs : List ℕ) → All IsDigit32 xs → All IsCodeChar xs
IsDigit32-IsCodeChar xs = All-mono IsDigit32 IsCodeChar xs (λ x h. ground (arith, h))

normalize-digits :
    (c : Crypto) (xs : List ℕ) → KeepsUpper c → All IsDigit32 xs → normalize_code c xs ≡ xs
unfolding normalize_code
normalize-digits c xs keeps h =
    rw (trim_codes-code xs (IsDigit32-IsCodeChar xs h), keeps xs (IsDigit32-IsCodeChar xs h))
      (filter-IsDigit32 xs h)

-- normalizeCode gives a code's digits back, without the dashes.
pub normalize_code-new_recovery_code :
    (c : Crypto) (value : List ℕ)
    → KeepsUpper c
    → normalize_code c (new_recovery_code value) ≡ base32 value
unfolding normalize_code new_recovery_code
normalize_code-new_recovery_code c value keeps =
    let digits = base32-IsDigit32 value in
    let chars = grouped-IsCodeChar (base32 value) digits in
    rw (trim_codes-code (grouped (base32 value)) chars, keeps (grouped (base32 value)) chars)
      (filter-grouped (base32 value) digits ∙ filter-IsDigit32 (base32 value) digits)

hash-digits :
    (c : Crypto) (value : List ℕ)
    → KeepsUpper c
    → hash_recovery_code c (base32 value) ≡ hash_recovery_code c (new_recovery_code value)
unfolding hash_recovery_code
hash-digits c value keeps =
    ap (λ (z : List ℕ). c.sha256 (recovery_prefix ++ z))
      (normalize-digits c (base32 value) keeps (base32-IsDigit32 value)
        ∙ sym (normalize_code-new_recovery_code c value keeps))

byte_length-le : (xs : List ℕ) → length xs ≤ byte_length xs
unfolding byte_length
byte_length-le [] = omega arith
byte_length-le (x ∷ xs) = ground (arith, byte_length-le xs)

use_recovery_code-works :
    (r : MemoryRepository) (user_id : String) (m : MemoryCredential) (hash : Hash)
    → lookup user_id r.credentials ≡ some m
    → m.enabled ≡ true
    → any (λ (current : Hash). bytes_equal current hash) m.stored_codes ≡ true
    → (use_recovery_code r user_id hash).1 ≡ ok tt
unfolding use_recovery_code
use_recovery_code-works r user_id m hash e on there =
    rw (e, use_recovery_code) (ground (arith, on, there))

after_recovery-ok :
    (failed used : MemoryRepository × Reply (Unit {0}))
    → used.1 ≡ ok tt
    → (after_recovery failed used).1 ≡ ok tt
after_recovery-ok failed (r, ok _) h = refl
after_recovery-ok failed (r, err e) h = ground arith

verify_code-recovery :
    (c : Crypto) (r : MemoryRepository) (credential : Credential) (user_id : String) (code : List ℕ)
    (now match_now : Time)
    → totp_code_pattern code ≡ false
    → leb 20 (byte_length code) ≡ true
    → (use_recovery_code r user_id (hash_recovery_code c code)).1 ≡ ok tt
    → (verify_code c r credential user_id code now match_now).1 ≡ ok tt
unfolding verify_code
verify_code-recovery c r credential user_id code now match_now no_totp enough works =
    rw (no_totp, enough, verify_code)
      (after_recovery-ok (fail r user_id (credential.failed_attempts + 1) now)
        (use_recovery_code r user_id (hash_recovery_code c code)) works)

-- A recovery code of 18 bytes that was issued to a user and whose hash is still stored passes Verify,
-- if the credential is enabled and not locked and strings.ToUpper leaves upper-case letters, digits
-- and dashes alone.
pub issued_code_accepted :
    (c : Crypto) (r : MemoryRepository) (user_id : String) (m : MemoryCredential) (value : List ℕ)
    (now match_now : Time)
    → KeepsUpper c
    → length value ≡ 18
    → lookup user_id r.credentials ≡ some m
    → m.enabled ≡ true
    → is_locked m.credential now ≡ false
    → any
        (λ (current : Hash). bytes_equal current (hash_recovery_code c (new_recovery_code value)))
        m.stored_codes
      ≡ true
    → (verify c r user_id (new_recovery_code value) now match_now).1 ≡ ok tt
unfolding verify find totp_code_pattern
issued_code_accepted c r user_id m value now match_now keeps size e on unlocked there =
    let long = length-base32 value in
    let no_totp : totp_code_pattern (base32 value) ≡ false = ground (arith, long, size) in
    let enough : leb 20 (byte_length (base32 value)) ≡ true =
      ground (arith, long, size, byte_length-le (base32 value)) in
    let works =
      use_recovery_code-works r user_id m (hash_recovery_code c (new_recovery_code value)) e on
        there in
    let digits : normalize_code c (new_recovery_code value) ≡ base32 value =
      normalize_code-new_recovery_code c value keeps in
    let used : (use_recovery_code r user_id (hash_recovery_code c (base32 value))).1 ≡ ok tt =
      rw (hash-digits c value keeps) works in
    let credential = record m.credential { recovery_codes = length m.stored_codes } in
    let accepted =
      verify_code-recovery c r credential user_id (base32 value) now match_now no_totp enough
        used in
    let read : (verify_code c r credential user_id (normalize_code c (new_recovery_code value)) now
          match_now).1
        ≡ ok tt =
      rw digits accepted in
    rw (e, verify, find) (ground (arith, on, unlocked, read))
