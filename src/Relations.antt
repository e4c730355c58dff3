-- ===== src/Relations.antt =====
-- What users are to each other and to the subjects of posts: blocks, mutes, muted words, follows and
-- favourites, from src/blocks, src/follows and src/favourites, and what they tell the feed.
mod Types
mod Blocks
mod Follows
mod Favourites
mod Signals
pub mod Hidden
mod Tests
unfoldable pub use Types.*
unfoldable pub use Blocks.*
unfoldable pub use Follows.*
unfoldable pub use Favourites.*
unfoldable pub use Signals.*
