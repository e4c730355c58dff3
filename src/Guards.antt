-- ===== src/Guards.antt =====
-- The guards of src/common/guards and the cache of user states that one of them reads.
mod StatusCache
mod Requests
pub mod Admission
mod Tests
unfoldable pub use StatusCache.*
unfoldable pub use Requests.*
