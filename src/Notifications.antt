-- ===== src/Notifications.antt =====
-- src/notifications: who is told of a transfer or a rumour, and what a user reads.
mod Service
pub mod Notices
pub mod Inbox
pub mod Telling
mod Tests
unfoldable pub use Service.*
