-- ===== src/Transfers.antt =====
-- Transfers and rumours, from src/transfers: what admins and authors write.
mod Types
mod Repository
mod Admin
mod Rumours
pub mod Announced
pub mod Rights
mod Tests
unfoldable pub use Types.*
unfoldable pub use Repository.*
unfoldable pub use Admin.*
unfoldable pub use Rumours.*
