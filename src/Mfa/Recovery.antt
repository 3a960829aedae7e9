-- ===== src/Mfa/Recovery.antt =====
-- internal/mfa: how often a recovery code is used.
use certus.Common.{
  string_key, hash_key, ℕ, suc, ◌-◌, ◌≤◌, String, ◌≡◌, refl, subst, inl, inr, Bool, true, false,
  ◌&&◌, none, some, List, [], ◌∷◌, arith, ◌==◌, eq_iff, if◌then◌else◌, ok, err, Hash, bytes_equal,
  eq_of_bytes_equal, Bool-cases, Option-cases, count_if, any, All, remove_first, lookup, put,
}
use certus.Mfa.Types.{Reply, MemoryCredential, MemoryRepository, invalid_code}
use certus.Mfa.Repository.{cleared, spend, use_recovery_code}
use certus.Mfa.History.{
  step, Every, Every-written, Call, replace_pending_call, replace_codes_call, replace_secret_call,
  enable_call, totp_call, recovery_call, failure_call, store_device_call, rotate_device_call,
  count_devices_call, delete_devices_call, delete_call,
}
use certus.Mfa.Preserved.{Harmless, step-Every}

abbrev pub is_ok : Reply (Unit {0}) → Bool
is_ok (ok _) = true
is_ok (err e) = false

ok_of_is_ok : (x : Reply (Unit {0})) → is_ok x ≡ true → x ≡ ok tt
ok_of_is_ok (ok _) h = refl
ok_of_is_ok (err e) h = ground arith

count_if-remove_first :
    (p : Hash → Bool) (xs : List Hash)
    → any p xs ≡ true
    → suc (count_if p (remove_first p xs)) ≡ count_if p xs
count_if-remove_first p [] h = ground arith
count_if-remove_first p (x ∷ xs) h = ground (arith, count_if-remove_first p xs)

count_if-remove_first-le :
    (q p : Hash → Bool) (xs : List Hash) → count_if q (remove_first p xs) ≤ count_if q xs
count_if-remove_first-le q p [] = omega arith
count_if-remove_first-le q p (x ∷ xs) = ground (arith, count_if-remove_first-le q p xs)

module _ (user_id : String) (hash : Hash) where
  abbrev pub matches : Hash → Bool
  matches current = bytes_equal current hash

  -- How many of the user's stored codes have this hash.
  abbrev pub stored : MemoryRepository → ℕ
  stored r = elim (lookup user_id r.credentials) [
    | none ↦ 0
    | some m ↦ count_if matches m.stored_codes
  ]

  -- The call is a use of this code by this user, and it succeeds.
  abbrev pub is_use : MemoryRepository → Call → Bool
  is_use r (recovery_call u g) =
      u == user_id && bytes_equal g hash && is_ok (use_recovery_code r u g).1
  is_use r _ = false

  unfoldable pub uses : MemoryRepository → List Call → ℕ
  uses r [] = 0
  uses r (c ∷ cs) = let rest = uses (step r c) cs in if is_use r c then suc rest else rest

  -- The call gives no new codes to this user.
  abbrev pub IssuesOther : Call → Type 0
  IssuesOther (replace_pending_call c hashes) = c.user_id == user_id ≡ false
  IssuesOther (replace_codes_call u hashes) = u == user_id ≡ false
  IssuesOther _ = Unit

  abbrev AtMost : ℕ → MemoryCredential → Type 0
  AtMost n m = count_if matches m.stored_codes ≤ n

  IssuesOther-Harmless : (n : ℕ) (c : Call) → IssuesOther c → Harmless user_id (AtMost n) c
  IssuesOther-Harmless n (replace_pending_call c hashes) other = λ hit. ground (arith, other, hit)
  IssuesOther-Harmless n (replace_codes_call u hashes) other = λ hit m h. ground (arith, other, hit)
  IssuesOther-Harmless n (replace_secret_call u current replacement) other = λ hit m h. h
  IssuesOther-Harmless n (enable_call u used now) other = λ hit m h. h
  IssuesOther-Harmless n (totp_call u used) other = λ hit m fresh h. h
  IssuesOther-Harmless n (recovery_call u g) other = λ hit m h.
      omega (arith, count_if-remove_first-le matches (λ (x : Hash). bytes_equal x g) m.stored_codes)
  IssuesOther-Harmless n (failure_call u attempts locked_until) other = λ hit m h. h
  IssuesOther-Harmless n (store_device_call device max_devices) other = tt
  IssuesOther-Harmless n (rotate_device_call u current replacement user_agent now) other = tt
  IssuesOther-Harmless n (count_devices_call u now) other = tt
  IssuesOther-Harmless n (delete_devices_call u) other = tt
  IssuesOther-Harmless n (delete_call u) other = tt

-- A use that succeeds was of a code that is stored for an enabled credential, and spends it.
pub use_recovery_code_ok :
    (r : MemoryRepository) (user_id : String) (hash : Hash)
    → (use_recovery_code r user_id hash).1 ≡ ok tt
    → (m : MemoryCredential) × (lookup user_id r.credentials ≡ some m)
      × (m.enabled ≡ true)
      × (any (matches user_id hash) m.stored_codes ≡ true)
      × ((use_recovery_code r user_id hash).0
          ≡ record r { credentials = put user_id (cleared (spend hash m)) r.credentials })
unfolding use_recovery_code
use_recovery_code_ok r user_id hash success = elim (Option-cases (lookup user_id r.credentials)) [
  | inl e ↦
      let refused : ◌≡◌ {A = Reply (Unit {0})} (err invalid_code) (ok tt) =
        rw (e, use_recovery_code) at success in
      ground arith
  | inr (m, e) ↦
      let answer = rw (e, use_recovery_code) at success in
      let on : m.enabled ≡ true = ground arith in
      let there : any (matches user_id hash) m.stored_codes ≡ true = ground arith in
      (m, e, on, there, rw (e, use_recovery_code) (ground (arith, on, there)))
]

module _ (user_id : String) (hash : Hash) where
  -- A use that succeeds leaves one code fewer with this hash.
  spend-AtMost :
      (n : ℕ) (r : MemoryRepository)
      → (use_recovery_code r user_id hash).1 ≡ ok tt
      → Every user_id (AtMost user_id hash n) r
      → (1 ≤ n) × Every user_id (AtMost user_id hash (n - 1)) (use_recovery_code r user_id hash).0
  spend-AtMost n r success h =
      let (m, e, on, there, written) = use_recovery_code_ok r user_id hash success in
      let one_fewer = count_if-remove_first (matches user_id hash) m.stored_codes there in
      let before = h m e in
      (
        omega arith,
        rw written (
            Every-written user_id (AtMost user_id hash (n - 1)) (cleared (spend hash m)) r
              r.trusted_devices (omega arith)),
      )

  is_use-lem :
      (r : MemoryRepository) (c : Call)
      → is_use user_id hash r c ≡ true
      → (step r c ≡ (use_recovery_code r user_id hash).0)
        × ((use_recovery_code r user_id hash).1 ≡ ok tt)
  unfolding step
  is_use-lem r (replace_pending_call c hashes) h = ground (arith, h)
  is_use-lem r (replace_codes_call u hashes) h = ground (arith, h)
  is_use-lem r (replace_secret_call u current replacement) h = ground (arith, h)
  is_use-lem r (enable_call u used now) h = ground (arith, h)
  is_use-lem r (totp_call u used) h = ground (arith, h)
  is_use-lem r (recovery_call u g) h =
      let a : u ≡ user_id = (eq_iff u user_id).0 (ground arith) in
      let b : g ≡ hash = eq_of_bytes_equal g hash (ground arith) in
      let answer : is_ok (use_recovery_code r u g).1 ≡ true = ground arith in
      let success : is_ok (use_recovery_code r user_id hash).1 ≡ true =
        subst (λ z. is_ok (use_recovery_code r user_id z).1 ≡ true) b
          (subst (λ z. is_ok (use_recovery_code r z g).1 ≡ true) a answer) in
      (rw (a, b), ok_of_is_ok (use_recovery_code r user_id hash).1 success)
  is_use-lem r (failure_call u attempts locked_until) h = ground (arith, h)
  is_use-lem r (store_device_call device max_devices) h = ground (arith, h)
  is_use-lem r (rotate_device_call u current replacement user_agent now) h = ground (arith, h)
  is_use-lem r (count_devices_call u now) h = ground (arith, h)
  is_use-lem r (delete_devices_call u) h = ground (arith, h)
  is_use-lem r (delete_call u) h = ground (arith, h)

  uses-AtMost :
      (n : ℕ) (r : MemoryRepository) (cs : List Call)
      → All (IssuesOther user_id hash) cs
      → Every user_id (AtMost user_id hash n) r
      → uses user_id hash r cs ≤ n
  unfolding uses
  uses-AtMost n r [] others h = omega arith
  uses-AtMost n r (c ∷ cs) others h = elim (Bool-cases (is_use user_id hash r c)) [
    | inl hit ↦
        let (next, success) = is_use-lem r c hit in
        let (one, spent) = spend-AtMost n r success h in
        let later = uses-AtMost (n - 1) (step r c) cs others.1 (rw next spent) in
        rw hit (omega arith)
    | inr miss ↦ rw miss (
        uses-AtMost n (step r c) cs others.1 (
          step-Every user_id (AtMost user_id hash n) r c
            (IssuesOther-Harmless user_id hash n c others.0) h))
  ]

  -- However the calls of a history are mixed, the user has at most as many successful uses of a
  -- recovery code in it as there are stored codes with its hash at the start, unless a call issues new
  -- codes to the user: a code that is stored once is used once.
  pub recovery_code_uses-le :
      (r : MemoryRepository) (cs : List Call)
      → All (IssuesOther user_id hash) cs
      → uses user_id hash r cs ≤ stored user_id hash r
  recovery_code_uses-le r cs others =
      uses-AtMost (stored user_id hash r) r cs others (λ m e. rw (e, stored) (omega arith))
