-- ===== src/Comments.antt =====
-- Comments, from src/comments: their making, removal with all that hangs on them, and their tree.
mod Removal
mod Service
mod Tree
pub mod Threads
pub mod Completeness
pub mod Cascade
pub mod Links
pub mod Runs
mod Tests
unfoldable pub use Removal.*
unfoldable pub use Service.*
unfoldable pub use Tree.*
