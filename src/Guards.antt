-- ===== src/Guards.antt =====
-- apps/companion/src/protocol-server/guards/: which messages a phone's socket may bring in and is
-- sent.
pub mod Inbound
pub mod Session
mod Tests
