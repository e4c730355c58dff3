-- ===== src/Posts.antt =====
-- Posts, from src/posts: their shapes, their making, removal and reactions, and what a vote answers.
mod Percent
mod Shape
mod Service
pub mod Percentages
pub mod Told
pub mod Bounds
pub mod Shapes
pub mod Keys
pub mod Shapely
pub mod Processing
pub mod Runs
mod Tests
mod VoteResult
unfoldable pub use Percent.*
unfoldable pub use Shape.*
unfoldable pub use Service.*
unfoldable pub use VoteResult.*
