-- ===== src/Supervision.antt =====
-- apps/companion/src/supervision/ and apps/companion/src/backend/supervision/: the loop that watches
-- the affairs at work.
pub mod Types
pub mod Tick
pub mod Apply
pub mod Quiet
pub mod Safety
mod Tests
