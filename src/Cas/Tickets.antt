-- ===== src/Cas/Tickets.antt =====
-- internal/cas/ticket.go: the methods of the memory repository.
use certus.Common.{
  String, Bool, not, ◌&&◌, none, some, List, [], ◌∷◌, ◌++◌, ◌==◌, if◌then◌else◌, ok, err, Time,
  after, Hash, bytes_equal, is_nil, filter, any, find_first, visit_first,
}
use certus.Cas.Types.{
  Reply, ServiceTicket, ServiceSession, ProxyGrantingTicket, ProxyTicket, MemoryTicket,
  MemoryProxyTicket, MemoryRepository, ticket_not_found, ticket_expired,
}

unfoldable pub save_proxy_granting_ticket :
    MemoryRepository → ProxyGrantingTicket → MemoryRepository
save_proxy_granting_ticket r value = record r {
  proxy_granting_tickets = r.proxy_granting_tickets ++ value ∷ [];
}

abbrev pub pgt_has_hash : Hash → ProxyGrantingTicket → Bool
pgt_has_hash hash t = bytes_equal t.hash hash

unfoldable pub find_proxy_granting_ticket :
    MemoryRepository → Hash → Time → Reply ProxyGrantingTicket
find_proxy_granting_ticket r hash now =
    elim (find_first (pgt_has_hash hash) r.proxy_granting_tickets) [
      | none ↦ err ticket_not_found
      | some t ↦ if not (after t.expires_at now) then err ticket_expired else ok t
    ]

unfoldable pub save_proxy_ticket :
    MemoryRepository → ProxyTicket → Hash → MemoryRepository × Reply (Unit {0})
save_proxy_ticket r value pgt_hash =
    if not (any (pgt_has_hash pgt_hash) r.proxy_granting_tickets)
    then (r, err ticket_not_found)
    else (
      record r {
        proxy_tickets = r.proxy_tickets ++ record { value = value; consumed_at = none } ∷ [];
      },
      ok tt,
    )

abbrev pub is_proxy_ticket : Hash → String → MemoryProxyTicket → Bool
is_proxy_ticket hash target_service t =
    bytes_equal t.hash hash && t.target_service == target_service

-- The body of ConsumeProxyTicket's loop at the ticket that matches.
unfoldable pub consume_proxy :
    Bool → Time → MemoryProxyTicket → MemoryProxyTicket × Reply ProxyTicket
consume_proxy require_primary now t =
    if not (is_nil t.consumed_at)
    then (t, err ticket_not_found)
    else if require_primary && not t.primary_credentials
    then (t, err ticket_not_found)
    else if not (after t.expires_at now)
    then (t, err ticket_expired)
    else (record t { consumed_at = some now }, ok t.value)

unfoldable pub consume_proxy_ticket :
    MemoryRepository → Hash → String → Bool → Time → MemoryRepository × Reply ProxyTicket
consume_proxy_ticket r hash target_service require_primary now =
    let visited =
      visit_first (is_proxy_ticket hash target_service) (consume_proxy require_primary now)
        (err ticket_not_found) r.proxy_tickets in
    (record r { proxy_tickets = visited.0 }, visited.1)

unfoldable pub save_service_ticket : MemoryRepository → ServiceTicket → MemoryRepository
save_service_ticket r value = record r {
  tickets = r.tickets ++ record { value = value; consumed_at = none } ∷ [];
  sessions =
      r.sessions
      ++ record {
        session_id = value.session_id;
        client_id = value.client_id;
        service = value.service;
        ticket = value.ticket;
      }
        ∷ [];
}

abbrev pub is_service_ticket : Hash → String → MemoryTicket → Bool
is_service_ticket hash service t = bytes_equal t.hash hash && t.service == service

-- The body of ConsumeServiceTicket's loop at the ticket that matches.
unfoldable pub consume_service : Bool → Time → MemoryTicket → MemoryTicket × Reply ServiceTicket
consume_service require_primary now t =
    if not (is_nil t.consumed_at)
    then (t, err ticket_not_found)
    else if require_primary && not t.primary_credentials
    then (t, err ticket_not_found)
    else if not (after t.expires_at now)
    then (t, err ticket_expired)
    else (record t { consumed_at = some now }, ok t.value)

unfoldable pub consume_service_ticket :
    MemoryRepository → Hash → String → Bool → Time → MemoryRepository × Reply ServiceTicket
consume_service_ticket r hash service require_primary now =
    let visited =
      visit_first (is_service_ticket hash service) (consume_service require_primary now)
        (err ticket_not_found) r.tickets in
    (record r { tickets = visited.0 }, visited.1)

unfoldable pub list_service_sessions : MemoryRepository → String → List ServiceSession
list_service_sessions r session_id = filter (λ v. v.session_id == session_id) r.sessions

unfoldable pub delete_service_sessions : MemoryRepository → String → MemoryRepository
delete_service_sessions r session_id = record r {
  sessions = filter (λ v. not (v.session_id == session_id)) r.sessions;
  proxy_granting_tickets = filter (λ t. not (t.session_id == session_id)) r.proxy_granting_tickets;
  proxy_tickets = filter (λ t. not (t.session_id == session_id)) r.proxy_tickets;
}
