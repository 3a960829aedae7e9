-- ===== src/RateLimit/Policies.antt =====
-- internal/ratelimit/ratelimit.go: what Validate and Allow accept.
use certus.Common.{
  negsuc, pos, Result-cases, Bool-cases, ℕ, ◌≤◌, String, ◌≡◌, refl, ap, ◌∙◌, ◌↔◌, ◌⊎◌, inl, inr,
  true, false, not, ◌&&◌, ◌||◌, Option, none, some, arith, ltb, eqb, if◌then◌else◌, ok, err, Time,
  second, Hash, Bool-cases, ℤ, is_empty, trim_space,
}
use certus.RateLimit.Types.{
  Reply, Error, Policy, Attempt, Decision, MemoryRepository, invalid_policy, invalid_key,
}
use certus.RateLimit.Limiter.{enabled, day, validate, scope_pattern, validate_attempt, take, allow}

-- A limit from 1 to a million and a window from a second to a day.
abbrev pub InBounds : ℤ → ℤ → Type 0
InBounds limit window =
    (n : ℕ) × (w : ℕ) × (limit ≡ pos n)
    × (window ≡ pos w)
    × (1 ≤ n)
    × (n ≤ 1000000)
    × (second ≤ w)
    × (w ≤ day)

validate_cases :
    (limit window : ℤ)
    → (validate (record { limit = limit; window = window }) ≡ ok tt)
      ↔ ((limit ≡ pos 0) × (window ≡ pos 0) ⊎ InBounds limit window)
unfolding validate
validate_cases (pos n) (pos w) = (
  λ h. elim (Bool-cases (ltb n 1 && ltb w 1)) [
    | inl e ↦
        let a : n ≡ 0 = ground arith in let b : w ≡ 0 = ground arith in inl (ap pos a, ap pos b)
    | inr e ↦ inr (n, w, refl, refl, ground arith, ground arith, ground arith, ground arith)
  ],
  λ h. elim h [ inl (a, b) ↦ ground arith | inr (n', w', a, b, c, d, e, f) ↦ ground arith ],
)
validate_cases (negsuc n) w = (λ h. ground arith, λ h. ground arith)
validate_cases (pos n) (negsuc w) = (λ h. ground arith, λ h. ground arith)

-- A policy is valid if and only if it is the empty one, or has a limit from 1 to a million and a
-- window from a second to a day.
validate_iff :
    (p : Policy)
    → (validate p ≡ ok tt) ↔ ((p.limit ≡ pos 0) × (p.window ≡ pos 0) ⊎ InBounds p.limit p.window)
validate_iff p = validate_cases p.limit p.window

attempt_valid :
    (scope : String) (subject_hash : Hash) (limit window : ℤ) (now : Time)
    → InBounds limit window
    → validate_attempt (record {
      scope = scope;
      subject_hash = subject_hash;
      limit = limit;
      window = window;
      now = now;
    })
      ≡ (if scope_pattern scope && not (eqb now 0) then ok tt else err invalid_policy)
unfolding validate_attempt
attempt_valid scope subject_hash limit window now (n, w, a, b, c, d, e, f) =
    rw (a, b) (ground arith)

enabled_valid : (p : Policy) → enabled p ≡ true → validate p ≡ ok tt → InBounds p.limit p.window
unfolding enabled
enabled_valid p on valid = elim ((validate_iff p).0 valid) [
  | inl (a, b) ↦ let off : false ≡ true = rw a at on in ground arith
  | inr h ↦ h
]

-- The answer of Allow without its effect: the reason for a refusal, or none when it makes a decision.
abbrev pub refusal : Reply Decision → Option Error
refusal (ok d) = none
refusal (err e) = some e

take-refusal :
    (r : MemoryRepository) (a : Attempt)
    → refusal (take r a).1 ≡ elim (validate_attempt a) [ err e ↦ some e | ok _ ↦ none ]
unfolding take
take-refusal r a = elim (Result-cases (validate_attempt a)) [
  | inl (e, h) ↦ rw (h, take)
  | inr (_, h) ↦ rw (h, take)
]

refusal-valid :
    (hash : String → String → Hash) (r : MemoryRepository) (scope subject : String) (p : Policy)
    (now : Time)
    → enabled p ≡ true
    → validate p ≡ ok tt
    → refusal (allow hash r scope subject p now).1 ≡ (
        if not (scope_pattern (trim_space scope)) || is_empty (trim_space subject)
        then some invalid_key
        else if eqb now 0
        then some invalid_policy
        else none)
unfolding allow
refusal-valid hash r scope subject p now on valid =
    elim (Bool-cases (not (scope_pattern (trim_space scope)) || is_empty (trim_space subject))) [
      | inl e ↦ rw (on, valid, e, allow)
      | inr e ↦
          let named : scope_pattern (trim_space scope) ≡ true = ground arith in
          rw (on, valid, e, allow)
            (take-refusal r (record {
              scope = trim_space scope;
              subject_hash = hash (trim_space scope) (trim_space subject);
              limit = p.limit;
              window = p.window;
              now = now;
            })
              ∙ rw
                  (
                    attempt_valid (trim_space scope) (hash (trim_space scope) (trim_space subject))
                        p.limit p.window now (enabled_valid p on valid),
                    named,
                  )
                  (ground arith))
    ]

refusal-invalid :
    (hash : String → String → Hash) (r : MemoryRepository) (scope subject : String) (p : Policy)
    (now : Time) (e : Error)
    → enabled p ≡ true
    → validate p ≡ err e
    → refusal (allow hash r scope subject p now).1 ≡ some e
unfolding allow
refusal-invalid hash r scope subject p now e on bad = rw (on, bad, allow)

-- Allow makes a decision if and only if the policy is off, or the policy is within its bounds, the
-- trimmed scope matches the pattern, the trimmed subject is not empty and the time is set.
allow_ok_iff :
    (hash : String → String → Hash) (r : MemoryRepository) (scope subject : String) (p : Policy)
    (now : Time)
    → (refusal (allow hash r scope subject p now).1 ≡ none) ↔ (
        (enabled p ≡ false)
        ⊎ InBounds p.limit p.window
          × (scope_pattern (trim_space scope) ≡ true)
          × (is_empty (trim_space subject) ≡ false)
          × (eqb now 0 ≡ false))
unfolding allow
allow_ok_iff hash r scope subject p now = elim (Bool-cases (enabled p)) [
  | inr off ↦ rw (off, allow) (λ h. inl refl, λ h. refl)
  | inl on ↦ elim (Result-cases (validate p)) [
    | inl (e, bad) ↦ rw (refusal-invalid hash r scope subject p now e on bad) (
      λ h. ground arith,
      λ h. elim h [
        | inl off ↦ ground arith
        | inr (bounds, _, _, _) ↦ let valid = (validate_iff p).1 (inr bounds) in ground arith
      ],
    )
    | inr (_, valid) ↦
        let bounds = enabled_valid p on valid in
        rw (refusal-valid hash r scope subject p now on valid) (
          λ h. inr (bounds, ground arith, ground arith, ground arith),
          λ h. elim h [ inl off ↦ ground arith | inr (_, a, b, c) ↦ rw (a, b, c) ],
        )
  ]
]
