-- ===== src/Reports.antt =====
-- Reports and their review, from src/reports: moderation over posts, comments and accounts.
mod World
mod Service
pub mod Review
mod Tests
unfoldable pub use World.*
unfoldable pub use Service.*
