-- ===== src/Cluster.antt =====
-- The cluster crate, crates/kamino-cluster/src.
pub mod Message
pub mod Membership
pub mod Gossip
pub mod Envelope
pub mod Routing
mod Tests
