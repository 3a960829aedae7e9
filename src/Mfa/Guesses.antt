-- ===== src/Mfa/Guesses.antt =====
-- internal/mfa/mfa.go: sequences of calls of Verify.
use certus.Common.{
  ◌≡◌, ◌⊎◌, string_key, hash_key, ℕ, suc, ◌-◌, String, Bool, true, false, not, ◌&&◌, none, some,
  List, [], ◌∷◌, ok, err, Time, max, lookup,
}
use certus.Mfa.Types.{Reply, MemoryRepository, replay}
use certus.Mfa.Service.{is_locked, verify}
use certus.Mfa.Codes.{Crypto}

-- An answer that is neither a success nor the report of a replay.
abbrev pub is_miss : Reply (Unit {0}) → Bool
is_miss (ok _) = false
is_miss (err replay) = false
is_miss (err _) = true

-- The user's code is looked at: the credential is enabled and not locked.
unfoldable pub is_checked : MemoryRepository → String → Time → Bool
is_checked r user_id now = elim (lookup user_id r.credentials) [
  | none ↦ false
  | some m ↦ m.enabled && not (is_locked m.credential now)
]

-- A call of Verify: the code, and the clock's two readings.
pub record Guess : Type 0 where
  pub code : List ℕ
  pub now : Time
  pub match_now : Time

-- How many codes may have an influence within five minutes: none without a credential, else as many as
-- are missing to five failures, but one at least.
abbrev pub budget : String → MemoryRepository → ℕ
budget user_id r = elim (lookup user_id r.credentials) [
  | none ↦ 0
  | some m ↦ max 1 (5 - m.failed_attempts)
]

module _ (c : Crypto) (user_id : String) where
  abbrev pub answer_to : MemoryRepository → Guess → MemoryRepository × Reply (Unit {0})
  answer_to r g = verify c r user_id g.code g.now g.match_now

  -- The guesses of a sequence all miss.
  unfoldable pub all_miss : MemoryRepository → List Guess → Bool
  all_miss r [] = true
  all_miss r (g ∷ gs) =
      let rest = all_miss (answer_to r g).0 gs in is_miss (answer_to r g).1 && rest

  -- The call does not depend on its code: with any other code it answers and writes the same.
  abbrev pub IsBlind : MemoryRepository → Guess → Type 0
  IsBlind r g = (code : List ℕ) → answer_to r (record g { code = code }) ≡ answer_to r g

  -- All but at most `n` of the guesses are blind.
  abbrev pub AllButBlind : ℕ → MemoryRepository → List Guess → Type 0
  AllButBlind n r [] = Unit
  AllButBlind n r (g ∷ gs) =
      (IsBlind r g × AllButBlind n (answer_to r g).0 gs)
      ⊎ ((m : ℕ) × (n ≡ suc m) × AllButBlind m (answer_to r g).0 gs)
