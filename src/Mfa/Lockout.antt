-- ===== src/Mfa/Lockout.antt =====
-- internal/mfa/mfa.go: the lock of Verify.
use certus.Common.{
  suc, string_key, hash_key, ℕ, ◌+◌, ◌-◌, ◌*◌, ◌≤◌, ◌<◌, String, ◌≡◌, refl, ◌∙◌, ◌⊎◌, inl, inr,
  true, some, List, [], ◌∷◌, arith, leb, Time, Bool-cases, min, All, lookup,
}
use certus.Mfa.Types.{MemoryCredential, MemoryRepository}
use certus.Mfa.Repository.{failed_with, record_failure}
use certus.Mfa.Service.{is_locked, minute, lock_after, fail, is_locked}
use certus.Mfa.Codes.{normalize_code, Crypto}
use certus.Mfa.Guesses.{is_miss, is_checked, budget, answer_to, all_miss, AllButBlind, Guess}
use certus.Mfa.Misses.{verify-checked, unchecked, verify_code-miss}
use certus.Mfa.History.{Every, Every-written}

module _ (user_id : String) (start : Time) where
  -- Five minutes after the start.
  abbrev deadline : Time
  deadline = start + 5 * minute

  -- So many codes can still be looked at before the deadline: none once the credential is locked.
  abbrev Allows : ℕ → MemoryCredential → Type 0
  Allows n m =
      ((until : Time) × (m.locked_until ≡ some until) × (deadline ≤ until))
      ⊎ (1 ≤ n) × (5 ≤ m.failed_attempts + n)

  Allows-failed :
      (n : ℕ) (m : MemoryCredential) (now : Time)
      → start ≤ now
      → (1 ≤ n) × (5 ≤ m.failed_attempts + n)
      → Allows
          (n - 1)
          (failed_with (m.failed_attempts + 1) (lock_after (m.failed_attempts + 1) now) m)
  unfolding lock_after
  Allows-failed n m now late (some_left, budget) =
      elim (Bool-cases (leb 5 (m.failed_attempts + 1))) [
        | inl fifth ↦
            rw fifth
              (inl (now + min (m.failed_attempts + 1 - 4) 12 * (5 * minute), refl, ground arith))
        | inr early ↦ inr (ground arith, ground arith)
      ]

  fail-Allows :
      (n : ℕ) (r : MemoryRepository) (m : MemoryCredential) (now : Time)
      → start ≤ now
      → lookup user_id r.credentials ≡ some m
      → (1 ≤ n) × (5 ≤ m.failed_attempts + n)
      → Every user_id (Allows (n - 1)) (fail r user_id (m.failed_attempts + 1) now).0
  unfolding fail record_failure
  fail-Allows n r m now late e budget =
      rw (e, record_failure)
        (Every-written user_id (Allows (n - 1)) _ r r.trusted_devices
          (Allows-failed n m now late budget))

module _ (c : Crypto) (user_id : String) (start : Time) where
  guesses-Allows :
      (n : ℕ) (r : MemoryRepository) (gs : List Guess)
      → All (λ (g : Guess). (start ≤ g.now) × (g.now < start + 5 * minute)) gs
      → all_miss c user_id r gs ≡ true
      → Every user_id (Allows user_id start n) r
      → AllButBlind c user_id n r gs
  unfolding all_miss
  guesses-Allows n r [] within misses h = tt
  guesses-Allows n r (g ∷ gs) within misses h = elim (Bool-cases (is_checked r user_id g.now)) [
    | inl looked ↦
        let (m, e, on, unlocked, answer) = verify-checked c user_id r g looked in
        let missed : is_miss (answer_to c user_id r g).1 ≡ true = ground arith in
        let recorded : answer_to c user_id r g ≡ fail r user_id (m.failed_attempts + 1) g.now =
          answer
          ∙ verify_code-miss c user_id r m (normalize_code c g.code) g.now g.match_now e on
              (rw⁻¹ answer missed) in
        elim (h m e) [
          | inl (until, set, far) ↦
              let still_locked : is_locked m.credential g.now ≡ true =
                rw (is_locked, set) (ground (arith, far, within.0.1)) in
              ground (arith, still_locked, unlocked)
          | inr budget ↦
              let next : Every user_id (Allows user_id start (n - 1)) (answer_to c user_id r g).0 =
                rw recorded (fail-Allows user_id start n r m g.now within.0.0 e budget) in
              let one_less : n ≡ suc (n - 1) = ground (arith, budget) in
              let rest =
                guesses-Allows (n - 1) (answer_to c user_id r g).0 gs within.1 (ground arith)
                  next in
              inr (n - 1, one_less, rest)
        ]
    | inr unseen ↦
        let (same_state, blind) = unchecked c user_id r g unseen in
        inl (
          blind,
          guesses-Allows n (answer_to c user_id r g).0 gs within.1 (ground arith) (rw same_state h),
        )
  ]

  -- Of any sequence of calls of Verify for one user, whose clock readings lie within five minutes and
  -- of which none succeeds or reports a replay, all but a few are blind: whatever code such a call is
  -- given, it answers and writes the same. The others are at most as many as are missing to five
  -- failures, or one if none is missing, and none if the user has no credential.
  pub guesses_bounded :
      (r : MemoryRepository) (gs : List Guess)
      → All (λ (g : Guess). (start ≤ g.now) × (g.now < start + 5 * minute)) gs
      → all_miss c user_id r gs ≡ true
      → AllButBlind c user_id (budget user_id r) r gs
  guesses_bounded r gs within misses =
      guesses-Allows (budget user_id r) r gs within misses
        (λ m e. rw (e, budget) (inr (ground arith, ground arith)))
