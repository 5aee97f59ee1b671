-- ===== src/Messages.antt =====
-- apps/companion/src/chat/channel/, protocol-server/message-outbox.ts and
-- backend/chat/message-receipts.ts: messages of the desktop to the phone.
pub mod Pending
pub mod Outbox
pub mod Receipts
pub mod Kept
pub mod Again
mod Tests
