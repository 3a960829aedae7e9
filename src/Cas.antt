-- ===== src/Cas.antt =====
-- internal/cas/ticket.go: the tickets of the CAS protocol.
pub mod Types
pub mod Tickets
pub mod Operations
pub mod ServiceTickets
pub mod ProxyTickets
mod Examples
