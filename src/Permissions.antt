-- ===== src/Permissions.antt =====
-- apps/companion/src/permissions/gate: the desktop's authority on permissions.
pub mod Policy
pub mod Types
pub mod Gate
