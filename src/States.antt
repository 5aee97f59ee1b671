-- ===== src/States.antt =====
-- packages/protocol/src/states: the closed sets of states and their tables of transitions.
pub mod Affair
pub mod Job
pub mod Pairing
pub mod Decision
pub mod Laws
mod Tests
