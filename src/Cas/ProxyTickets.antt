-- ===== src/Cas/ProxyTickets.antt =====
-- internal/cas/ticket.go: proxy tickets, and the end of a session.
use certus.Common.{
  String, ◌≡◌, ◌≢◌, inl, inr, Bool, true, false, not, ◌&&◌, none, some, List, [], ◌∷◌, arith, ◌==◌,
  eq_iff, if◌then◌else◌, ok, err, Time, Hash, bytes_equal, eq_of_bytes_equal, is_nil, Option-cases,
  filter, All, All-append, All-filter, All-filter_self, find_first, find_first-matches,
  find_first-All, All-change_first, visit_first-state, visit_first-result, Unique,
  All-change_first_only,
}
use certus.Cas.Types.{
  ServiceSession, ProxyTicket, MemoryProxyTicket, MemoryRepository, ticket_not_found,
}
use certus.Cas.Tickets.{
  save_proxy_granting_ticket, save_proxy_ticket, is_proxy_ticket, consume_proxy,
  consume_proxy_ticket, save_service_ticket, consume_service_ticket, list_service_sessions,
  delete_service_sessions,
}
use certus.Cas.Operations.{step, run, Call, save_proxy, consume_proxy_call, delete_sessions}

abbrev pub same_proxy_ticket : MemoryProxyTicket → MemoryProxyTicket → Bool
same_proxy_ticket x y = is_proxy_ticket x.hash x.target_service y

apart :
    (hash : Hash) (target : String) (x y : MemoryProxyTicket)
    → is_proxy_ticket hash target x ≡ true
    → same_proxy_ticket x y ≡ false
    → is_proxy_ticket hash target y ≡ false
apart hash target x y m h =
    let a : x.hash ≡ hash = eq_of_bytes_equal x.hash hash (ground arith) in
    let b : x.target_service ≡ target = ground (arith, eq_iff x.target_service target) in
    rw (a, b) at h

-- Every ticket under the hash and target is used.
abbrev IsUsedIf : Hash → String → MemoryProxyTicket → Type 0
IsUsedIf hash target t = is_proxy_ticket hash target t && is_nil t.consumed_at ≡ false

abbrev pub AllUsed : Hash → String → MemoryRepository → Type 0
AllUsed hash target r = All (IsUsedIf hash target) r.proxy_tickets

-- The call does not save a proxy ticket under the hash and target.
abbrev pub SavesOther : Hash → String → Call → Type 0
SavesOther hash target (save_proxy value pgt_hash) =
    bytes_equal value.hash hash && value.target_service == target ≡ false
SavesOther hash target _ = Unit

proxy-result :
    (r : MemoryRepository) (hash : Hash) (target : String) (require_primary : Bool) (now : Time)
    → (consume_proxy_ticket r hash target require_primary now).1
      ≡ elim (find_first (is_proxy_ticket hash target) r.proxy_tickets) [
        | none ↦ err ticket_not_found
        | some t ↦ (consume_proxy require_primary now t).1
      ]
unfolding consume_proxy_ticket
proxy-result r hash target require_primary now = visit_first-result _ _ _ r.proxy_tickets

consume_proxy-ok :
    (require_primary : Bool) (now : Time) (t : MemoryProxyTicket) (a : ProxyTicket)
    → (consume_proxy require_primary now t).1 ≡ ok a
    → (t.consumed_at ≡ none)
      × (is_nil (consume_proxy require_primary now t).0.consumed_at ≡ false)
      × (a ≡ t.value)
unfolding consume_proxy
consume_proxy-ok require_primary now t a h = ground arith

consume_proxy-IsUsedIf :
    (hash : Hash) (target : String) (require_primary : Bool) (now : Time) (t : MemoryProxyTicket)
    → IsUsedIf hash target t
    → IsUsedIf hash target (consume_proxy require_primary now t).0
unfolding consume_proxy
consume_proxy-IsUsedIf hash target require_primary now t h = ground arith

-- A successful use reads the first ticket under the hash and target.
proxy-found :
    (r : MemoryRepository) (hash : Hash) (target : String) (require_primary : Bool) (now : Time)
    (a : ProxyTicket)
    → (consume_proxy_ticket r hash target require_primary now).1 ≡ ok a
    → (t : MemoryProxyTicket) × (find_first (is_proxy_ticket hash target) r.proxy_tickets ≡ some t)
      × (t.consumed_at ≡ none)
      × (is_nil (consume_proxy require_primary now t).0.consumed_at ≡ false)
      × (a ≡ t.value)
proxy-found r hash target require_primary now a h =
    elim (Option-cases (find_first (is_proxy_ticket hash target) r.proxy_tickets)) [
      | inl e ↦ absurd (cc (rw (proxy-result r hash target require_primary now, e) at h))
      | inr (t, e) ↦
          let (v, used, same) =
            consume_proxy-ok require_primary now t a
              (rw (proxy-result r hash target require_primary now, e) at h) in
          (t, e, v, used, same)
    ]

consume-AllUsed :
    (r : MemoryRepository) (hash : Hash) (target : String) (require_primary : Bool) (now : Time)
    (a : ProxyTicket)
    → Unique same_proxy_ticket r.proxy_tickets
    → (consume_proxy_ticket r hash target require_primary now).1 ≡ ok a
    → AllUsed hash target (consume_proxy_ticket r hash target require_primary now).0
unfolding consume_proxy_ticket
consume-AllUsed r hash target require_primary now a unique h =
    let (t, e, v, used, _) = proxy-found r hash target require_primary now a h in
    rw visit_first-state (
      All-change_first_only same_proxy_ticket (is_proxy_ticket hash target) (apart hash target)
        (IsUsedIf hash target) (λ x. (consume_proxy require_primary now x).0) t r.proxy_tickets
        unique e (ground arith) (λ y k. ground arith))

step-AllUsed :
    (hash : Hash) (target : String) (r : MemoryRepository) (c : Call)
    → SavesOther hash target c
    → AllUsed hash target r
    → AllUsed hash target (step r c)
unfolding step save_service_ticket consume_service_ticket save_proxy_granting_ticket
    save_proxy_ticket consume_proxy_ticket delete_service_sessions
step-AllUsed hash target r (save_proxy value pgt_hash) other h =
    let longer =
      All-append (IsUsedIf hash target) r.proxy_tickets
        (record { value = value; consumed_at = none } ∷ []) h (ground arith, tt) in
    ground (arith, longer)
step-AllUsed hash target r (consume_proxy_call hash' target' require_primary now) other h =
    rw visit_first-state (
      All-change_first (IsUsedIf hash target) (is_proxy_ticket hash' target') _ r.proxy_tickets
        (λ t m k. consume_proxy-IsUsedIf hash target require_primary now t k) h)
step-AllUsed hash target r (delete_sessions session_id) other h =
    All-filter (IsUsedIf hash target) (λ t. not (t.session_id == session_id)) r.proxy_tickets h
step-AllUsed hash target r _ other h = h

run-AllUsed :
    (hash : Hash) (target : String) (r : MemoryRepository) (cs : List Call)
    → All (SavesOther hash target) cs
    → AllUsed hash target r
    → AllUsed hash target (run r cs)
unfolding run
run-AllUsed hash target r [] other h = h
run-AllUsed hash target r (c ∷ cs) other h =
    run-AllUsed hash target (step r c) cs other.1 (step-AllUsed hash target r c other.0 h)

-- A proxy ticket is used once: where no two tickets share hash and target, after a successful use,
-- and through any calls that do not save a ticket under them again, no later use succeeds.
pub proxy_ticket_single_use :
    (r : MemoryRepository) (hash : Hash) (target : String) (require_primary : Bool) (now : Time)
    (a : ProxyTicket) (cs : List Call) (require_primary' : Bool) (later : Time) (b : ProxyTicket)
    → Unique same_proxy_ticket r.proxy_tickets
    → All (SavesOther hash target) cs
    → (consume_proxy_ticket r hash target require_primary now).1 ≡ ok a
    → (consume_proxy_ticket
        (run (consume_proxy_ticket r hash target require_primary now).0 cs)
        hash
        target
        require_primary'
        later).1
      ≢ ok b
proxy_ticket_single_use r hash target require_primary now a cs require_primary' later b unique other
      h again =
    let s = run (consume_proxy_ticket r hash target require_primary now).0 cs in
    let used =
      run-AllUsed hash target _ cs other
        (consume-AllUsed r hash target require_primary now a unique h) in
    let (t, e, v, _, _) = proxy-found s hash target require_primary' later b again in
    let m = find_first-matches (is_proxy_ticket hash target) s.proxy_tickets t e in
    let u =
      find_first-All (IsUsedIf hash target) (is_proxy_ticket hash target) s.proxy_tickets t used
        e in
    ground arith

filter-filter :
    (session_id other : String) (xs : List ServiceSession)
    → filter
        (λ (v : ServiceSession). v.session_id == other)
        (filter (λ v. not (v.session_id == session_id)) xs)
      ≡ (if session_id == other
          then []
          else filter (λ (v : ServiceSession). v.session_id == other) xs)
filter-filter session_id other [] = ground arith
filter-filter session_id other (x ∷ xs) = ground (
  arith,
  filter-filter session_id other xs,
  eq_iff x.session_id session_id,
  eq_iff x.session_id other,
  eq_iff session_id other,
)

-- After the service sessions of a session are deleted it lists none, every other session lists what
-- it did, and none of its proxy-granting tickets and proxy tickets is left.
delete_service_sessions_lem :
    (r : MemoryRepository) (session_id other : String)
    → (list_service_sessions (delete_service_sessions r session_id) other
        ≡ (if session_id == other then [] else list_service_sessions r other))
      × All
          (λ t. not (t.session_id == session_id) ≡ true)
          (delete_service_sessions r session_id).proxy_granting_tickets
      × All
          (λ t. not (t.session_id == session_id) ≡ true)
          (delete_service_sessions r session_id).proxy_tickets
unfolding list_service_sessions delete_service_sessions
delete_service_sessions_lem r session_id other = (
  filter-filter session_id other r.sessions,
  All-filter_self (λ t. not (t.session_id == session_id)) r.proxy_granting_tickets,
  All-filter_self (λ t. not (t.session_id == session_id)) r.proxy_tickets,
)
