-- ===== src/Mfa/Misses.antt =====
-- internal/mfa/mfa.go: what Verify does with a code that misses.
use certus.Common.{
  string_key, hash_key, Result-cases, if-both, string_key, hash_key, Result-cases, if-both, ℕ, ◌+◌,
  String, ◌≡◌, refl, ◌⊎◌, inl, inr, true, false, some, List, [], ◌∷◌, arith, leb, ok, err, Time,
  Hash, Option-cases, length, at_most, successor, predecessor, ℤ, lookup,
}
use certus.Mfa.Types.{
  Reply, Credential, MemoryCredential, MemoryRepository, not_found, unavailable, invalid_code,
  locked, replay, already_enabled, not_enabled, trusted_device_not_found, random_failed,
}
use certus.Mfa.Repository.{find, use_totp, use_recovery_code}
use certus.Mfa.Service.{
  match_steps, match_totp, fail, is_locked, after_match, after_recovery, verify_code, verify,
}
use certus.Mfa.Codes.{
  normalize_code, hash_recovery_code, totp_code_pattern, byte_length, step_at, Crypto,
}
use certus.Mfa.Guesses.{is_miss, is_checked, answer_to, IsBlind, Guess}

after_match-miss :
    (r : MemoryRepository) (user_id : String) (failed : MemoryRepository × Reply (Unit {0}))
    (answer : Reply ℤ)
    → ((used : ℤ) → answer ≡ ok used → (use_totp r user_id used).1 ≡ ok tt)
    → is_miss (after_match r user_id failed answer).1 ≡ true
    → after_match r user_id failed answer ≡ failed
after_match-miss r user_id failed (ok used) works h =
    let clash : false ≡ true = rw (works used refl) at h in ground arith
after_match-miss r user_id failed (err replay) works h = ground (arith, h)
after_match-miss r user_id failed (err not_found) works h = refl
after_match-miss r user_id failed (err unavailable) works h = refl
after_match-miss r user_id failed (err invalid_code) works h = refl
after_match-miss r user_id failed (err locked) works h = refl
after_match-miss r user_id failed (err already_enabled) works h = refl
after_match-miss r user_id failed (err not_enabled) works h = refl
after_match-miss r user_id failed (err trusted_device_not_found) works h = refl
after_match-miss r user_id failed (err random_failed) works h = refl

after_recovery-miss :
    (failed used : MemoryRepository × Reply (Unit {0}))
    → (used.1 ≡ ok tt) ⊎ (used.1 ≡ err invalid_code)
    → is_miss (after_recovery failed used).1 ≡ true
    → after_recovery failed used ≡ failed
after_recovery-miss failed (used, ok _) answer h = ground (arith, h)
after_recovery-miss failed (used, err invalid_code) answer h = refl
after_recovery-miss failed (used, err replay) answer h = elim answer [
  | inl a ↦ ground arith
  | inr b ↦ ground arith
]
after_recovery-miss failed (used, err not_found) answer h = elim answer [
  | inl a ↦ ground arith
  | inr b ↦ ground arith
]
after_recovery-miss failed (used, err unavailable) answer h = elim answer [
  | inl a ↦ ground arith
  | inr b ↦ ground arith
]
after_recovery-miss failed (used, err locked) answer h = elim answer [
  | inl a ↦ ground arith
  | inr b ↦ ground arith
]
after_recovery-miss failed (used, err already_enabled) answer h = elim answer [
  | inl a ↦ ground arith
  | inr b ↦ ground arith
]
after_recovery-miss failed (used, err not_enabled) answer h = elim answer [
  | inl a ↦ ground arith
  | inr b ↦ ground arith
]
after_recovery-miss failed (used, err trusted_device_not_found) answer h = elim answer [
  | inl a ↦ ground arith
  | inr b ↦ ground arith
]
after_recovery-miss failed (used, err random_failed) answer h = elim answer [
  | inl a ↦ ground arith
  | inr b ↦ ground arith
]

-- UseRecoveryCode has one error.
use_recovery_code_answer :
    (r : MemoryRepository) (user_id : String) (hash : Hash)
    → ((use_recovery_code r user_id hash).1 ≡ ok tt)
      ⊎ ((use_recovery_code r user_id hash).1 ≡ err invalid_code)
unfolding use_recovery_code
use_recovery_code_answer r user_id hash = elim (Option-cases (lookup user_id r.credentials)) [
  | inl e ↦ rw (e, use_recovery_code) (inr refl)
  | inr (m, e) ↦ rw (e, use_recovery_code) (ground arith)
]

-- A step that matches has not passed.
match_steps-fresh :
    (c : Crypto) (secret : List ℕ) (last : ℤ) (code : List ℕ) (steps : List ℤ) (used : ℤ)
    → match_steps c secret last code steps ≡ ok used
    → at_most used last ≡ false
unfolding match_steps
match_steps-fresh c secret last code [] used h = ground arith
match_steps-fresh c secret last code (s ∷ steps) used h =
    ground (arith, match_steps-fresh c secret last code steps used)

pub match_totp-fresh :
    (c : Crypto) (credential : Credential) (code : List ℕ) (now : Time) (used : ℤ)
    → match_totp c credential code now ≡ ok used
    → at_most used credential.last_used_step ≡ false
unfolding match_totp
match_totp-fresh c credential code now used h =
    elim (Result-cases (c.decrypt credential.user_id credential.secret)) [
      | inl (e, refused) ↦ let answer = rw (match_totp, refused) at h in ground arith
      | inr (secret, opened) ↦
          let answer = rw (match_totp, opened) at h in
          let steps = step_at now ∷ predecessor (step_at now) ∷ successor (step_at now) ∷ [] in
          let matched : match_steps c secret credential.last_used_step code steps ≡ ok used =
            ground arith in
          match_steps-fresh c secret credential.last_used_step code steps used matched
    ]

pub use_totp-works :
    (r : MemoryRepository) (user_id : String) (m : MemoryCredential) (used : ℤ)
    → lookup user_id r.credentials ≡ some m
    → m.enabled ≡ true
    → at_most used m.last_used_step ≡ false
    → (use_totp r user_id used).1 ≡ ok tt
unfolding use_totp
use_totp-works r user_id m used e on fresh = rw (e, use_totp) (ground (arith, on, fresh))

-- What Find returns for a stored credential.
abbrev pub found : MemoryCredential → Credential
found m = record m.credential { recovery_codes = length m.stored_codes }

module _ (c : Crypto) (user_id : String) where
  -- Verify on an enabled credential that is not locked.
  pub verify-checked :
      (r : MemoryRepository) (g : Guess)
      → is_checked r user_id g.now ≡ true
      → (m : MemoryCredential) × (lookup user_id r.credentials ≡ some m)
        × (m.enabled ≡ true)
        × (is_locked m.credential g.now ≡ false)
        × (answer_to c user_id r g
            ≡ verify_code c r (found m) user_id (normalize_code c g.code) g.now g.match_now)
  unfolding is_checked verify find
  verify-checked r g h = elim (Option-cases (lookup user_id r.credentials)) [
    | inl e ↦ let clash : false ≡ true = rw (e, is_checked) at h in ground arith
    | inr (m, e) ↦
        let looked = rw (e, is_checked) at h in
        let on : m.enabled ≡ true = ground arith in
        let unlocked : is_locked m.credential g.now ≡ false = ground arith in
        (m, e, on, unlocked, rw (e, verify, find) (ground (arith, on, unlocked)))
  ]

  -- A guess that is not looked at gets the same refusal whatever its code is, and changes nothing.
  pub unchecked :
      (r : MemoryRepository) (g : Guess)
      → is_checked r user_id g.now ≡ false
      → ((answer_to c user_id r g).0 ≡ r) × IsBlind c user_id r g
  unfolding is_checked verify find
  unchecked r g h = elim (Option-cases (lookup user_id r.credentials)) [
    | inl e ↦ (rw (e, verify, find) refl, λ code. rw (e, verify, find) refl)
    | inr (m, e) ↦
        let looked = rw (e, is_checked) at h in
        (
          rw (e, verify, find) (ground (arith, looked)),
          λ code. rw (e, verify, find) (ground (arith, looked)),
        )
  ]

  -- A code that misses is recorded as one more failure.
  pub verify_code-miss :
      (r : MemoryRepository) (m : MemoryCredential) (code : List ℕ) (now match_now : Time)
      → lookup user_id r.credentials ≡ some m
      → m.enabled ≡ true
      → is_miss (verify_code c r (found m) user_id code now match_now).1 ≡ true
      → verify_code c r (found m) user_id code now match_now
        ≡ fail r user_id (m.failed_attempts + 1) now
  unfolding verify_code
  verify_code-miss r m code now match_now e on =
      if-both (λ (z : MemoryRepository × Reply (Unit {0})). is_miss z.1 ≡ true → z ≡ failed)
        (totp_code_pattern code) _ _
        (λ digits.
          after_match-miss r user_id failed (match_totp c (found m) code match_now) (λ used matched.
            use_totp-works r user_id m used e on
              (match_totp-fresh c (found m) code match_now used matched)))
        (λ other.
          if-both (λ (z : MemoryRepository × Reply (Unit {0})). is_miss z.1 ≡ true → z ≡ failed)
            (leb 20 (byte_length code)) _ _
            (λ long.
              after_recovery-miss failed (use_recovery_code r user_id (hash_recovery_code c code))
                (use_recovery_code_answer r user_id (hash_recovery_code c code)))
            (λ short h. refl))
    where
      failed : MemoryRepository × Reply (Unit {0})
      failed = fail r user_id (m.failed_attempts + 1) now
