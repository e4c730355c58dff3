-- ===== src/Messaging.antt =====
-- src/messaging: the outbox, its dispatcher, and the processor of its messages.
mod Outbox
mod Reactions
mod Processor
mod LikeCounts
mod Frames
pub mod Delivery
pub mod Dispatch
pub mod Likes
mod Tests
unfoldable pub use Outbox.*
unfoldable pub use Reactions.*
unfoldable pub use Processor.*
