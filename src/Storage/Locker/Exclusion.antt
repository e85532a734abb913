-- ===== src/Storage/Locker/Exclusion.antt =====
-- How many tasks hold the lock of a key, in crates/kamino-storage/src/locker.rs.
use kamino.Storage.Locker.{Locker}
