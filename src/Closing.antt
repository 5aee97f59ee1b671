-- ===== src/Closing.antt =====
-- apps/companion/src/affairs/actions/guards/: the command to close or cancel an
-- affair, from its checks to its saved answer.
pub mod Precheck
pub mod Accepted
pub mod Coordinator
pub mod Execute
pub mod Committed
pub mod Stopped
pub mod Children
pub mod Answers
mod Fixtures
mod Tests
mod Commands
