-- ===== src/Server.antt =====
-- The server crate, crates/kamino-server/src.
pub mod Replication
mod Tests
