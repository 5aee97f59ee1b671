-- ===== src/Credentials.antt =====
-- apps/companion/src/credentials/: the phones that are paired with this desktop, and how one proves
-- on a new session that it is.
pub mod Key
pub mod Store
pub mod Safety
mod Tests
