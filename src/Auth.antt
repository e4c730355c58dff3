-- ===== src/Auth.antt =====
-- Accounts and sessions.
mod Types
mod Tokens
mod Passwords
mod Verification
mod Service
mod Google
mod Rotation
pub mod Reset
pub mod Replay
pub mod Sessions
pub mod Accounts
pub mod Registration
pub mod Names
pub mod GoogleLogin
mod Tests
mod GoogleTests
unfoldable pub use Types.*
unfoldable pub use Tokens.*
unfoldable pub use Passwords.*
unfoldable pub use Service.*
unfoldable pub use Verification.*
unfoldable pub use Google.*
