-- ===== src/Protocol.antt =====
-- The protocol crate, crates/kamino-protocol/src.
pub mod Frame
pub mod Error
pub mod Text
pub mod Codec
pub mod Command
pub mod Wire
mod Tests
