-- ===== src/Session/Lifecycle.antt =====
-- internal/session: what the sessions' states allow, over any calls.
use certus.Common.{
  All-map_entries, string_key, IsDict-put, put, IsDict, IsDict-map_entries, lookup, String, ◌≡◌,
  refl, sym, ◌∙◌, inl, inr, Option, none, some, List, [], ◌∷◌, arith, ◌==◌, eq_iff, Time, Hash,
  Bool-cases, Option-cases, All, find_first,
}
use certus.Session.Types.{Session, MemoryRecord, MemoryRepository}
use certus.Session.Repository.{
  create, answers, seen, find, revoked, revoke, revoke_for_user, end_if, revoke_all,
}

pub data Call : Type 0 where
  create_call : Session → Hash → String → String → Option String → Call
  find_call : Hash → Time → Call
  revoke_call : String → Time → Call
  revoke_for_user_call : String → String → Time → Call
  revoke_all_call : String → String → Time → Call

-- The repository's methods that write it, as the steps of a history.
unfoldable pub step : MemoryRepository → Call → MemoryRepository
step r (create_call value hash ip_address user_agent id) =
    (create r value hash ip_address user_agent id).0
step r (find_call hash now) = (find r hash now).0
step r (revoke_call id now) = (revoke r id now).0
step r (revoke_for_user_call user_id id now) = (revoke_for_user r user_id id now).0
step r (revoke_all_call user_id except now) = (revoke_all r user_id except now).0

unfoldable pub run : MemoryRepository → List Call → MemoryRepository
unfolding step
run r [] = r
run r (c ∷ cs) = run (step r c) cs

abbrev Keyed : String × MemoryRecord → Type 0
Keyed (k, m) = m.id ≡ k

-- One record for each identifier, stored under it.
pub record IsWellFormed (r : MemoryRepository) : Type 0 where
  pub dict : IsDict r.records
  pub keys : All Keyed r.records

put-Keyed :
    (k : String) (v : MemoryRecord) (m : List (String × MemoryRecord))
    → v.id ≡ k
    → All Keyed m
    → All Keyed (put k v m)
put-Keyed k v [] e h = (e, tt)
put-Keyed k v ((i, w) ∷ m) e h = elim (Bool-cases (i == k)) [
  | inl hit ↦ rw hit (e ∙ sym ((eq_iff i k).0 hit), h.1)
  | inr miss ↦ rw miss (h.0, put-Keyed k v m e h.1)
]

pub lookup-Keyed :
    (k : String) (v : MemoryRecord) (m : List (String × MemoryRecord))
    → All Keyed m
    → lookup k m ≡ some v
    → v.id ≡ k
lookup-Keyed k v [] h e = ground arith
lookup-Keyed k v ((i, w) ∷ m) h e = ground (arith, h.0, eq_iff i k, lookup-Keyed k v m h.1)

put-IsWellFormed :
    (r : MemoryRepository) (k : String) (v : MemoryRecord)
    → v.id ≡ k
    → IsWellFormed r
    → IsWellFormed (record { records = put k v r.records })
put-IsWellFormed r k v e h = record {
  dict = IsDict-put k v r.records h.dict;
  keys = put-Keyed k v r.records e h.keys;
}

revoke_all-IsWellFormed :
    (r : MemoryRepository) (user_id except : String) (now : Time)
    → IsWellFormed r
    → IsWellFormed (revoke_all r user_id except now).0
unfolding revoke_all
revoke_all-IsWellFormed r user_id except now h = record {
  dict = IsDict-map_entries (end_if user_id except now) r.records h.dict;
  keys =
      All-map_entries Keyed (end_if user_id except now) r.records (λ k v e. ground (arith, e))
        h.keys;
}

find-IsWellFormed :
    (r : MemoryRepository) (hash : Hash) (now : Time)
    → IsWellFormed r
    → IsWellFormed (find r hash now).0
unfolding find
find-IsWellFormed r hash now h = elim (Option-cases (find_first (answers hash now) r.records)) [
  | inl e ↦ rw (e, find) h
  | inr ((k, m), e) ↦ rw (e, find) (put-IsWellFormed r m.id (seen now m) refl h)
]

pub revoke-IsWellFormed :
    (r : MemoryRepository) (id : String) (now : Time)
    → IsWellFormed r
    → IsWellFormed (revoke r id now).0
unfolding revoke
revoke-IsWellFormed r id now h = elim (Option-cases (lookup id r.records)) [
  | inl e ↦ rw (e, revoke) h
  | inr (m, e) ↦
      rw (e, revoke)
        (put-IsWellFormed r id (revoked now m) (lookup-Keyed id m r.records h.keys e) h)
]

revoke_for_user-IsWellFormed :
    (r : MemoryRepository) (user_id id : String) (now : Time)
    → IsWellFormed r
    → IsWellFormed (revoke_for_user r user_id id now).0
unfolding revoke_for_user
revoke_for_user-IsWellFormed r user_id id now h = elim (Option-cases (lookup id r.records)) [
  | inl e ↦ rw (e, revoke_for_user) h
  | inr (m, e) ↦
      let written =
        put-IsWellFormed r id (revoked now m) (lookup-Keyed id m r.records h.keys e) h in
      rw (e, revoke_for_user) (ground (arith, h, written))
]

pub step-IsWellFormed : (r : MemoryRepository) (c : Call) → IsWellFormed r → IsWellFormed (step r c)
unfolding step create
step-IsWellFormed r (create_call value hash ip_address user_agent none) h = h
step-IsWellFormed r (create_call value hash ip_address user_agent (some id)) h =
    put-IsWellFormed r id _ refl h
step-IsWellFormed r (find_call hash now) h = find-IsWellFormed r hash now h
step-IsWellFormed r (revoke_call id now) h = revoke-IsWellFormed r id now h
step-IsWellFormed r (revoke_for_user_call user_id id now) h =
    revoke_for_user-IsWellFormed r user_id id now h
step-IsWellFormed r (revoke_all_call user_id except now) h =
    revoke_all-IsWellFormed r user_id except now h

pub run-IsWellFormed :
    (r : MemoryRepository) (cs : List Call) → IsWellFormed r → IsWellFormed (run r cs)
unfolding run
run-IsWellFormed r [] h = h
run-IsWellFormed r (c ∷ cs) h = run-IsWellFormed (step r c) cs (step-IsWellFormed r c h)
