-- ===== src/Cas/Types.antt =====
-- internal/cas/ticket.go: the records, the repository's state and the errors.
use certus.Common.{String, Bool, Option, List, [], Time, Hash, Result}

pub data Error : Type 0 where
  ticket_not_found ticket_expired : Error

abbrev pub Reply : Type 0 → Type 0
Reply A = Result Error A

pub record ServiceTicket : Type 0 where
  pub hash : Hash
  pub ticket : String
  pub client_id : String
  pub service : String
  pub user_id : String
  pub session_id : String
  pub primary_credentials : Bool
  pub issued_at : Time
  pub expires_at : Time

pub record ServiceSession : Type 0 where
  pub session_id : String
  pub client_id : String
  pub service : String
  pub ticket : String

pub record ProxyGrantingTicket : Type 0 where
  pub hash : Hash
  pub client_id : String
  pub user_id : String
  pub session_id : String
  pub callback_url : String
  pub proxies : List String
  pub primary_credentials : Bool
  pub issued_at : Time
  pub expires_at : Time

pub record ProxyTicket : Type 0 where
  pub hash : Hash
  pub client_id : String
  pub target_service : String
  pub user_id : String
  pub session_id : String
  pub proxies : List String
  pub primary_credentials : Bool
  pub issued_at : Time
  pub expires_at : Time

pub record MemoryTicket : Type 0 where
  pub value : ServiceTicket
  pub open value use *
  pub consumed_at : Option Time

pub record MemoryProxyTicket : Type 0 where
  pub value : ProxyTicket
  pub open value use *
  pub consumed_at : Option Time

pub record MemoryRepository : Type 0 where
  pub tickets : List MemoryTicket
  pub proxy_granting_tickets : List ProxyGrantingTicket
  pub proxy_tickets : List MemoryProxyTicket
  pub sessions : List ServiceSession

-- NewMemoryRepository
abbrev pub new_memory_repository : MemoryRepository
new_memory_repository = record {
  tickets = [];
  proxy_granting_tickets = [];
  proxy_tickets = [];
  sessions = [];
}
