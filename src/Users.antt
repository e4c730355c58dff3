-- ===== src/Users.antt =====
-- src/users/users.service.ts: the administration of accounts.
mod Service
mod Counting
pub mod LastAdmin
pub mod Lockout
pub mod Administration
mod Tests
unfoldable pub use Service.*
