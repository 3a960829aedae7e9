-- ===== src/Cas/ServiceTickets.antt =====
-- internal/cas/ticket.go: ConsumeServiceTicket over the life of the repository.
use certus.Common.{
  ◌<◌, String, ◌≡◌, ap, ◌∙◌, ◌≢◌, ◌↔◌, inl, inr, Bool, false, not, ◌&&◌, none, some, List, [], ◌∷◌,
  arith, ◌==◌, ok, err, Time, Hash, bytes_equal, is_nil, Option-cases, find_first,
  find_first-change_first, visit_first-state, visit_first-result, Grows, Grows-refl, Grows-append,
  Grows-trans, find_first-Grows, Grows-change_first,
}
use certus.Cas.Types.{ServiceTicket, MemoryTicket, MemoryRepository, ticket_not_found}
use certus.Cas.Tickets.{
  save_proxy_granting_ticket, save_proxy_ticket, consume_proxy_ticket, save_service_ticket,
  is_service_ticket, consume_service, consume_service_ticket, delete_service_sessions,
}
use certus.Cas.Operations.{step, run, Call, save_service, consume_service_call, save_proxy}

-- What the request has to match for the stored ticket to be handed out.
pub record IsValidTicket (t : MemoryTicket) (require_primary : Bool) (now : Time) : Type 0 where
  pub unspent : t.consumed_at ≡ none
  pub primary : require_primary && not t.primary_credentials ≡ false
  pub unexpired : now < t.expires_at

-- `a` is the first ticket stored under the hash for the service, and may be validated.
abbrev pub Validates : MemoryRepository → Hash → String → Bool → Time → ServiceTicket → Type 0
Validates r hash service require_primary now a =
    (t : MemoryTicket) × (find_first (is_service_ticket hash service) r.tickets ≡ some t)
    × IsValidTicket t require_primary now
    × (a ≡ t.value)

module _ (require_primary : Bool) (now : Time) where
  consume_service-ok :
      (t : MemoryTicket) (a : ServiceTicket)
      → (consume_service require_primary now t).1 ≡ ok a
      → IsValidTicket t require_primary now × (a ≡ t.value)
  unfolding consume_service
  consume_service-ok t a h = ground arith

  ok-consume_service :
      (t : MemoryTicket)
      → IsValidTicket t require_primary now
      → (consume_service require_primary now t).1 ≡ ok t.value
  unfolding consume_service
  ok-consume_service t v = ground arith

  consume_service-spends :
      (t : MemoryTicket)
      → IsValidTicket t require_primary now
      → is_nil (consume_service require_primary now t).0.consumed_at ≡ false
  unfolding consume_service
  consume_service-spends t v = ground arith

  consume_service-value :
      (t : MemoryTicket) → (consume_service require_primary now t).0.value ≡ t.value
  unfolding consume_service
  consume_service-value t = ground arith

  service-result :
      (r : MemoryRepository) (hash : Hash) (service : String)
      → (consume_service_ticket r hash service require_primary now).1
        ≡ elim (find_first (is_service_ticket hash service) r.tickets) [
          | none ↦ err ticket_not_found
          | some t ↦ (consume_service require_primary now t).1
        ]
  unfolding consume_service_ticket
  service-result r hash service = visit_first-result _ _ _ r.tickets

  -- A service ticket is validated exactly when the first ticket with its hash and service is
  -- unused, unexpired, and from primary credentials where they are required.
  service_ticket_ok_iff :
      (r : MemoryRepository) (hash : Hash) (service : String) (a : ServiceTicket)
      → ((consume_service_ticket r hash service require_primary now).1 ≡ ok a)
        ↔ Validates r hash service require_primary now a
  service_ticket_ok_iff r hash service a = (from, to)
    where
      from :
          (consume_service_ticket r hash service require_primary now).1 ≡ ok a
          → Validates r hash service require_primary now a
      from h = elim (Option-cases (find_first (is_service_ticket hash service) r.tickets)) [
        | inl e ↦ absurd (cc (rw (service-result r hash service, e) at h))
        | inr (t, e) ↦
            let (v, same) = consume_service-ok t a (rw (service-result r hash service, e) at h) in
            (t, e, v, same)
      ]

      to :
          Validates r hash service require_primary now a
          → (consume_service_ticket r hash service require_primary now).1 ≡ ok a
      to (t, e, v, same) = rw (service-result r hash service, e, same) (ok-consume_service t v)

-- The ticket stays what it is, and once it is used it stays used.
pub record KeepsTicket (x y : MemoryTicket) : Type 0 where
  pub same : y.value ≡ x.value
  pub spent : is_nil x.consumed_at ≡ false → is_nil y.consumed_at ≡ false

KeepsTicket-refl : (x : MemoryTicket) → KeepsTicket x x
KeepsTicket-refl x = ground arith

KeepsTicket-trans : (x y z : MemoryTicket) → KeepsTicket x y → KeepsTicket y z → KeepsTicket x z
KeepsTicket-trans x y z h k = ground arith

consume_service-Keeps :
    (require_primary : Bool) (now : Time) (t : MemoryTicket)
    → KeepsTicket t (consume_service require_primary now t).0
unfolding consume_service
consume_service-Keeps require_primary now t = ground arith

step-Grows : (r : MemoryRepository) (c : Call) → Grows KeepsTicket r.tickets (step r c).tickets
unfolding step save_service_ticket consume_service_ticket save_proxy_granting_ticket
    save_proxy_ticket consume_proxy_ticket delete_service_sessions
step-Grows r (save_service value) = Grows-append KeepsTicket KeepsTicket-refl r.tickets _
step-Grows r (consume_service_call hash service require_primary now) = rw visit_first-state (
    Grows-change_first KeepsTicket KeepsTicket-refl (is_service_ticket hash service) _
      (λ t _. consume_service-Keeps require_primary now t) r.tickets)
step-Grows r (save_proxy value pgt_hash) =
    ground (arith, Grows-refl KeepsTicket KeepsTicket-refl r.tickets)
step-Grows r _ = Grows-refl KeepsTicket KeepsTicket-refl r.tickets

run-Grows : (r : MemoryRepository) (cs : List Call) → Grows KeepsTicket r.tickets (run r cs).tickets
unfolding run
run-Grows r [] = Grows-refl KeepsTicket KeepsTicket-refl r.tickets
run-Grows r (c ∷ cs) =
    Grows-trans KeepsTicket KeepsTicket-trans r.tickets (step r c).tickets
      (run (step r c) cs).tickets (step-Grows r c) (run-Grows (step r c) cs)

abbrev IsUsed : Hash → String → MemoryRepository → Type 0
IsUsed hash service r =
    (t : MemoryTicket) × (find_first (is_service_ticket hash service) r.tickets ≡ some t)
    × (is_nil t.consumed_at ≡ false)

KeepsTicket-matches :
    (hash : Hash) (service : String) (x y : MemoryTicket)
    → KeepsTicket x y
    → is_service_ticket hash service y ≡ is_service_ticket hash service x
KeepsTicket-matches hash service x y k =
    ap (λ (t : ServiceTicket). bytes_equal t.hash hash && t.service == service) k.same

used-ne-ok :
    (s : MemoryRepository) (hash : Hash) (service : String) (require_primary : Bool) (now : Time)
    (b : ServiceTicket)
    → IsUsed hash service s
    → (consume_service_ticket s hash service require_primary now).1 ≢ ok b
used-ne-ok s hash service require_primary now b (t, found, used) again =
    let (x, first, v, _) = (service_ticket_ok_iff require_primary now s hash service b).0 again in
    cc (found, first, used, v.unspent)

consume-IsUsed :
    (r : MemoryRepository) (hash : Hash) (service : String) (require_primary : Bool) (now : Time)
    (a : ServiceTicket)
    → (consume_service_ticket r hash service require_primary now).1 ≡ ok a
    → IsUsed hash service (consume_service_ticket r hash service require_primary now).0
unfolding consume_service_ticket
consume-IsUsed r hash service require_primary now a h =
    let (t, e, v, _) = (service_ticket_ok_iff require_primary now r hash service a).0 h in
    (
      (consume_service require_primary now t).0,
      rw visit_first-state (
          find_first-change_first (is_service_ticket hash service) _ r.tickets t
            (λ x m.
              KeepsTicket-matches hash service x _ (consume_service-Keeps require_primary now x)
              ∙ m)
            e),
      consume_service-spends require_primary now t v,
    )

-- A service ticket is validated once: after a successful validation, and whatever is called then,
-- no later validation under the same hash and service succeeds.
pub service_ticket_single_use :
    (r : MemoryRepository) (hash : Hash) (service : String) (require_primary : Bool) (now : Time)
    (a : ServiceTicket) (cs : List Call) (require_primary' : Bool) (later : Time)
    (b : ServiceTicket)
    → (consume_service_ticket r hash service require_primary now).1 ≡ ok a
    → (consume_service_ticket
        (run (consume_service_ticket r hash service require_primary now).0 cs)
        hash
        service
        require_primary'
        later).1
      ≢ ok b
service_ticket_single_use r hash service require_primary now a cs require_primary' later b h =
    let s = (consume_service_ticket r hash service require_primary now).0 in
    let (t, found, used) = consume-IsUsed r hash service require_primary now a h in
    let (x, still, k) =
      find_first-Grows KeepsTicket (is_service_ticket hash service)
        (KeepsTicket-matches hash service) s.tickets (run s cs).tickets t (run-Grows s cs) found in
    used-ne-ok (run s cs) hash service require_primary' later b (x, still, k.spent used)
