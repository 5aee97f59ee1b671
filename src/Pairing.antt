-- ===== src/Pairing.antt =====
-- apps/companion/src/pairing/: a pairing of a phone with this desktop, confirmed on both sides.
pub mod Session
pub mod Lifecycle
pub mod Safety
pub mod Refusals
pub mod Traces
mod Tests
