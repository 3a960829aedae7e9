-- ===== src/Cas/Operations.antt =====
-- internal/cas/ticket.go: the methods that write the repository as the steps of a history.
use certus.Common.{String, Bool, List, [], ◌∷◌, Time, Hash}
use certus.Cas.Types.{ServiceTicket, ProxyGrantingTicket, ProxyTicket, MemoryRepository}
use certus.Cas.Tickets.{
  save_proxy_granting_ticket, save_proxy_ticket, consume_proxy_ticket, save_service_ticket,
  consume_service_ticket, delete_service_sessions,
}

pub data Call : Type 0 where
  save_service : ServiceTicket → Call
  consume_service_call : Hash → String → Bool → Time → Call
  save_granting : ProxyGrantingTicket → Call
  save_proxy : ProxyTicket → Hash → Call
  consume_proxy_call : Hash → String → Bool → Time → Call
  delete_sessions : String → Call

unfoldable pub step : MemoryRepository → Call → MemoryRepository
step r (save_service value) = save_service_ticket r value
step r (consume_service_call hash service require_primary now) =
    (consume_service_ticket r hash service require_primary now).0
step r (save_granting value) = save_proxy_granting_ticket r value
step r (save_proxy value pgt_hash) = (save_proxy_ticket r value pgt_hash).0
step r (consume_proxy_call hash target_service require_primary now) =
    (consume_proxy_ticket r hash target_service require_primary now).0
step r (delete_sessions session_id) = delete_service_sessions r session_id

unfoldable pub run : MemoryRepository → List Call → MemoryRepository
unfolding step
run r [] = r
run r (c ∷ cs) = run (step r c) cs
