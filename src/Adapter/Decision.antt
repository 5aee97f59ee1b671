-- ===== src/Adapter/Decision.antt =====
-- packages/openclaw-adapter/src/mapping/decide-job-from-evidence.ts and decision/: the evidence of a
-- run decides the status of its job.
pub mod Evidence
pub mod Texts
pub mod Findings
pub mod Result
pub mod Completion
pub mod Rules
pub mod Decide
pub mod Completed
pub mod Applied
mod Tests
