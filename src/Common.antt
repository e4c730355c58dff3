-- ===== src/Common.antt =====
-- What requests share: src/common/interceptors, src/common/redis and src/common/sort.ts.
mod Idempotency
mod Cache
mod Sort
pub mod Once
pub mod Freshness
pub mod SortKeys
mod Tests
unfoldable pub use Idempotency.*
unfoldable pub use Cache.*
unfoldable pub use Sort.*
