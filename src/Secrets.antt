-- ===== src/Secrets.antt =====
-- internal/secrets: the key ring and the envelopes of encrypted secrets.
pub mod Keyring
pub mod Envelope
pub mod Parsed
pub mod Sealed
pub mod Standin
mod Examples
