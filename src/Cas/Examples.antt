-- ===== src/Cas/Examples.antt =====
-- internal/cas/ticket.go: the theorems at concrete inputs.
use certus.Common.{◌≡◌, refl, ◌≢◌, true, false, none, List, [], ◌∷◌, ok, bytes_equal}
use certus.Cas.Types.{ServiceTicket, ProxyTicket, MemoryRepository}
use certus.Cas.Tickets.{
  consume_proxy, consume_proxy_ticket, consume_service, consume_service_ticket,
}
use certus.Cas.Operations.{run, Call, save_service, delete_sessions}
use certus.Cas.ServiceTickets.{service_ticket_single_use}
use certus.Cas.ProxyTickets.{proxy_ticket_single_use}

abbrev a_ticket : ServiceTicket
a_ticket = record {
  hash = 1 ∷ [];
  ticket = "ST-1";
  client_id = "wiki";
  service = "https://wiki/";
  user_id = "alice";
  session_id = "s1";
  primary_credentials = true;
  issued_at = 10;
  expires_at = 20;
}

abbrev a_proxy : ProxyTicket
a_proxy = record {
  hash = 2 ∷ [];
  client_id = "wiki";
  target_service = "https://mail/";
  user_id = "alice";
  session_id = "s1";
  proxies = [];
  primary_credentials = true;
  issued_at = 10;
  expires_at = 20;
}

abbrev stored : MemoryRepository
stored = record {
  tickets = record { value = a_ticket; consumed_at = none } ∷ [];
  proxy_granting_tickets = [];
  proxy_tickets = record { value = a_proxy; consumed_at = none } ∷ [];
  sessions =
      record { session_id = "s1"; client_id = "wiki"; service = "https://wiki/"; ticket = "ST-1" }
      ∷ [];
}

abbrev a_history : List Call
a_history = save_service a_ticket ∷ delete_sessions "s2" ∷ []

consumed_once : (consume_service_ticket stored (1 ∷ []) "https://wiki/" true 15).1 ≡ ok a_ticket
unfolding consume_service_ticket consume_service bytes_equal
consumed_once = refl

service_ticket_single_use_example :
    (consume_service_ticket
      (run (consume_service_ticket stored (1 ∷ []) "https://wiki/" true 15).0 a_history)
      (1 ∷ [])
      "https://wiki/"
      false
      16).1
    ≢ ok a_ticket
service_ticket_single_use_example =
    service_ticket_single_use stored (1 ∷ []) "https://wiki/" true 15 a_ticket a_history false 16
      a_ticket consumed_once

proxy_consumed : (consume_proxy_ticket stored (2 ∷ []) "https://mail/" true 15).1 ≡ ok a_proxy
unfolding consume_proxy_ticket consume_proxy bytes_equal
proxy_consumed = refl

proxy_ticket_single_use_example :
    (consume_proxy_ticket
      (run (consume_proxy_ticket stored (2 ∷ []) "https://mail/" true 15).0 a_history)
      (2 ∷ [])
      "https://mail/"
      false
      16).1
    ≢ ok a_proxy
proxy_ticket_single_use_example =
    proxy_ticket_single_use stored (2 ∷ []) "https://mail/" true 15 a_proxy a_history false 16
      a_proxy (tt, tt) (tt, (tt, tt)) proxy_consumed
