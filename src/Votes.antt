-- ===== src/Votes.antt =====
-- Votes on posts, from src/posts.
mod Service
pub mod Tally
mod Tests
unfoldable pub use Service.*
