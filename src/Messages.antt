-- ===== src/Messages.antt =====
-- indexer-lib/src/database/messages: handshakes, payments and contextual messages
pub mod Address
pub mod Handshakes
pub mod Payments
pub mod Contextual
