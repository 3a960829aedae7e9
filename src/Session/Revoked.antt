-- ===== src/Session/Revoked.antt =====
-- internal/session: revoked sessions, and RevokeAll.
use certus.Common.{
  string_key, lookup-put, put, lookup-map_entries, lookup-find_first, lookup, ◌≤◌, String, ◌≡◌,
  refl, sym, ◌∙◌, subst, ◌≢◌, inl, inr, true, false, ◌&&◌, none, some, List, [], ◌∷◌, arith, ◌==◌,
  eq_iff, eq_refl, if◌then◌else◌, ok, Time, Hash, is_nil, Bool-cases, Option-cases, All, find_first,
  find_first-matches,
}
use certus.Session.Types.{Session, MemoryRecord, MemoryRepository}
use certus.Session.Repository.{
  create, answers, seen, find, is_active, revoked, revoke, revoke_for_user, ends, end_if,
  revoke_all,
}
use certus.Session.Lifecycle.{
  step, run, lookup-Keyed, revoke-IsWellFormed, step-IsWellFormed, run-IsWellFormed, Call,
  IsWellFormed, create_call, find_call, revoke_call, revoke_for_user_call, revoke_all_call,
}

-- The session is stored, and revoked.
abbrev pub IsRevoked : String → MemoryRepository → Type 0
IsRevoked id r = (m : MemoryRecord) × (lookup id r.records ≡ some m) × (is_nil m.revoked_at ≡ false)

-- The call does not create a session under the identifier.
abbrev pub DrawsOther : String → Call → Type 0
DrawsOther id (create_call value hash ip_address user_agent (some drawn)) = drawn == id ≡ false
DrawsOther id _ = Unit

put-IsRevoked :
    (id k : String) (v : MemoryRecord) (r : MemoryRepository)
    → (k == id ≡ true → is_nil v.revoked_at ≡ false)
    → IsRevoked id r
    → IsRevoked id (record { records = put k v r.records })
put-IsRevoked id k v r same (m, e, gone) = elim (Bool-cases (k == id)) [
  | inl hit ↦ (v, lookup-put k id v r.records ∙ rw hit, same hit)
  | inr miss ↦ (m, lookup-put k id v r.records ∙ rw miss e, gone)
]

find-IsRevoked :
    (id : String) (r : MemoryRepository) (hash : Hash) (now : Time)
    → IsWellFormed r
    → IsRevoked id r
    → IsRevoked id (find r hash now).0
unfolding find
find-IsRevoked id r hash now wf (m, e, gone) =
    elim (Option-cases (find_first (answers hash now) r.records)) [
      | inl f ↦ rw (f, find) (m, e, gone)
      | inr ((k, x), f) ↦
          let stored = lookup-find_first (answers hash now) r.records k x wf.dict f in
          let key = lookup-Keyed k x r.records wf.keys stored in
          let live = find_first-matches (answers hash now) r.records (k, x) f in
          rw (f, find)
            (put-IsRevoked id x.id (seen now x) r
              (λ hit.
                let a : k ≡ id = sym key ∙ (eq_iff x.id id).0 hit in
                let b : some x ≡ some m =
                  sym (subst (λ z. lookup z r.records ≡ some x) a stored) ∙ e in
                ground (arith, live))
              (m, e, gone))
    ]

revoke-IsRevoked :
    (id other : String) (r : MemoryRepository) (now : Time)
    → IsRevoked id r
    → IsRevoked id (revoke r other now).0
unfolding revoke
revoke-IsRevoked id other r now h = elim (Option-cases (lookup other r.records)) [
  | inl e ↦ rw (e, revoke) h
  | inr (m, e) ↦ rw (e, revoke) (put-IsRevoked id other (revoked now m) r (λ hit. refl) h)
]

revoke_for_user-IsRevoked :
    (id other user_id : String) (r : MemoryRepository) (now : Time)
    → IsRevoked id r
    → IsRevoked id (revoke_for_user r user_id other now).0
unfolding revoke_for_user
revoke_for_user-IsRevoked id other user_id r now h = elim (Option-cases (lookup other r.records)) [
  | inl e ↦ rw (e, revoke_for_user) h
  | inr (m, e) ↦ elim (Bool-cases (m.user_id == user_id)) [
    | inl own ↦
        rw (e, revoke_for_user, own) (put-IsRevoked id other (revoked now m) r (λ hit. refl) h)
    | inr foreign ↦ rw (e, revoke_for_user, foreign) h
  ]
]

revoke_all-IsRevoked :
    (id user_id except : String) (r : MemoryRepository) (now : Time)
    → IsRevoked id r
    → IsRevoked id (revoke_all r user_id except now).0
unfolding revoke_all
revoke_all-IsRevoked id user_id except r now (m, e, gone) = (
  end_if user_id except now id m,
  rw (lookup-map_entries (end_if user_id except now) id r.records, e),
  ground (arith, gone),
)

step-IsRevoked :
    (id : String) (r : MemoryRepository) (c : Call)
    → DrawsOther id c
    → IsWellFormed r
    → IsRevoked id r
    → IsRevoked id (step r c)
unfolding step create
step-IsRevoked id r (create_call value hash ip_address user_agent none) other wf h = h
step-IsRevoked id r (create_call value hash ip_address user_agent (some drawn)) other wf h =
    put-IsRevoked id drawn _ r (λ hit. cc (hit, other)) h
step-IsRevoked id r (find_call hash now) other wf h = find-IsRevoked id r hash now wf h
step-IsRevoked id r (revoke_call x now) other wf h = revoke-IsRevoked id x r now h
step-IsRevoked id r (revoke_for_user_call user_id x now) other wf h =
    revoke_for_user-IsRevoked id x user_id r now h
step-IsRevoked id r (revoke_all_call user_id except now) other wf h =
    revoke_all-IsRevoked id user_id except r now h

run-IsRevoked :
    (id : String) (r : MemoryRepository) (cs : List Call)
    → All (DrawsOther id) cs
    → IsWellFormed r
    → IsRevoked id r
    → IsRevoked id (run r cs)
unfolding run
run-IsRevoked id r [] other wf h = h
run-IsRevoked id r (c ∷ cs) other wf h =
    run-IsRevoked id (step r c) cs other.1 (step-IsWellFormed r c wf)
      (step-IsRevoked id r c other.0 wf h)

revoke-ok :
    (r : MemoryRepository) (id : String) (now : Time)
    → (revoke r id now).1 ≡ ok tt
    → IsRevoked id (revoke r id now).0
unfolding revoke
revoke-ok r id now h = elim (Option-cases (lookup id r.records)) [
  | inl e ↦ absurd (cc (rw (e, revoke) at h))
  | inr (m, e) ↦
      rw (e, revoke) (revoked now m, lookup-put id id (revoked now m) r.records ∙ rw eq_refl, refl)
]

revoked-inactive :
    (r : MemoryRepository) (user_id id : String) (now : Time)
    → IsRevoked id r
    → is_active r user_id id now ≡ false
unfolding is_active
revoked-inactive r user_id id now (m, e, gone) = rw (e, is_active) (ground arith)

revoked-not_found :
    (r : MemoryRepository) (id : String) (hash : Hash) (now : Time) (a : Session)
    → IsWellFormed r
    → IsRevoked id r
    → (find r hash now).1 ≡ ok a
    → a.id ≢ id
unfolding find
revoked-not_found r id hash now a wf (m, e, gone) h same =
    elim (Option-cases (find_first (answers hash now) r.records)) [
      | inl f ↦ absurd (cc (rw (f, find) at h))
      | inr ((k, x), f) ↦
          let stored = lookup-find_first (answers hash now) r.records k x wf.dict f in
          let key = lookup-Keyed k x r.records wf.keys stored in
          let live = find_first-matches (answers hash now) r.records (k, x) f in
          let got : ok (seen now x).session ≡ ok a = rw (f, find) at h in
          let own : x.id ≡ a.id = ground arith in
          let a : k ≡ id = sym key ∙ own ∙ same in
          let b : some x ≡ some m = sym (subst (λ z. lookup z r.records ≡ some x) a stored) ∙ e in
          ground (arith, live)
    ]

-- A session that is revoked stays out of use: through any calls that do not draw its identifier
-- again it is never active, for any user, and no token finds it.
pub revoked_session_unusable :
    (r : MemoryRepository) (id : String) (now : Time) (cs : List Call) (user_id : String)
    (hash : Hash) (later : Time) (a : Session)
    → IsWellFormed r
    → (revoke r id now).1 ≡ ok tt
    → All (DrawsOther id) cs
    → a.id ≡ id
    → (is_active (run (revoke r id now).0 cs) user_id id later ≡ false)
      × ((find (run (revoke r id now).0 cs) hash later).1 ≢ ok a)
revoked_session_unusable r id now cs user_id hash later a wf done other same =
    let s = (revoke r id now).0 in
    let wf' : IsWellFormed s = revoke-IsWellFormed r id now wf in
    let gone = run-IsRevoked id s cs other wf' (revoke-ok r id now done) in
    (
      revoked-inactive (run s cs) user_id id later gone,
      λ found.
          revoked-not_found (run s cs) id hash later a (run-IsWellFormed s cs wf') gone found same,
    )

-- After RevokeAll, and from then on, the user's session `except` is as active as it was and no
-- other session of the user is; the sessions of other users are as active as they were.
is_active-revoke_all :
    (r : MemoryRepository) (owner except : String) (now : Time) (user_id id : String) (later : Time)
    → now ≤ later
    → is_active (revoke_all r owner except now).0 user_id id later ≡ (
        if user_id == owner
        then id == except && is_active r user_id id later
        else is_active r user_id id later)
unfolding is_active revoke_all ends
is_active-revoke_all r owner except now user_id id later h =
    elim (Option-cases (lookup id r.records)) [
      | inl e ↦
          rw (lookup-map_entries (end_if owner except now) id r.records, e, is_active)
            (ground arith)
      | inr (m, e) ↦
          rw (lookup-map_entries (end_if owner except now) id r.records, e, is_active)
            (ground (arith, eq_iff m.user_id owner, eq_iff m.user_id user_id, eq_iff user_id owner))
    ]
