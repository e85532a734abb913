-- ===== src/Storage.antt =====
-- The storage crate, crates/kamino-storage/src.
pub mod Outcome
pub mod Deps
pub mod Entry
pub mod Table
pub mod Compaction
pub mod RamBlock
pub mod Eviction
pub mod Locker
mod Tests
