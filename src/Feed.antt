-- ===== src/Feed.antt =====
-- src/feed: the ranked feed, a pipeline of sources, filters, scorers and a selector.
mod Types
mod Filters
mod Scorers
mod Runner
mod Sources
mod Service
pub mod Filtering
pub mod Pool
pub mod Completeness
mod Lasting
pub mod Served
mod Tests
unfoldable pub use Types.*
unfoldable pub use Filters.*
unfoldable pub use Scorers.*
unfoldable pub use Runner.*
unfoldable pub use Sources.*
unfoldable pub use Service.*
