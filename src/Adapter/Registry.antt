-- ===== src/Adapter/Registry.antt =====
-- packages/openclaw-adapter/src/jobs: the adapter's register of jobs and its three operations.
pub mod Keys
pub mod Errors
pub mod Operations
pub mod Steps
pub mod Kept
pub mod Overlap
pub mod Origins
pub mod Again
pub mod Refused
mod Tests
