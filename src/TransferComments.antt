-- ===== src/TransferComments.antt =====
-- Comments on transfers, from src/transfer-comments.
mod Service
unfoldable pub use Service.*
