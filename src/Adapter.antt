-- ===== src/Adapter.antt =====
-- packages/openclaw-adapter/src/mapping/: what a runtime's report makes of a job.
pub mod Snapshot
pub mod Moves
pub mod Decision
pub mod Registry
mod Tests
