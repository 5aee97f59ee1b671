-- ===== src/Store.antt =====
-- apps/companion/src/state/: the companion's mirror of affairs and jobs, and how protocol messages
-- change it.
pub mod Types
pub mod Projection
pub mod Apply
pub mod Legal
pub mod Projected
pub mod Affairs
pub mod Jobs
pub mod Replay
pub mod Reconcile
pub mod Repair
mod Tests
