-- ===== src/Cluster/Routing.antt =====
-- crates/kamino-cluster/src/routing.
pub mod Table
pub mod Store
pub mod Coordinator
