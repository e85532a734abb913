-- ===== src/Cluster/Message.antt =====
-- Members, crates/kamino-core/src/member.rs, and the gossip events about them,
-- crates/kamino-cluster/src/message.rs.
use kamino.Prelude.{ℕ, Bool, List}

-- `std::net::SocketAddr`
pub data SocketAddr : Type 0 where
  v4 : (ip port : ℕ) → SocketAddr
  v6 : (ip port flowinfo scope_id : ℕ) → SocketAddr

-- A name is the list of its bytes.
pub record Member : Type 0 where
  pub id : ℕ
  pub name : List ℕ
  pub addr : SocketAddr
  pub discovery_addr : SocketAddr
  pub birthdate : ℕ
  pub is_coordinator : Bool

pub data GossipEvent : Type 0 where
  alive :
      (id : ℕ) (name : List ℕ) (addr discovery_addr : SocketAddr) (birthdate incarnation : ℕ)
      → GossipEvent
  suspect : (id incarnation from : ℕ) → GossipEvent
  dead : (id incarnation from : ℕ) → GossipEvent
  leave : (id incarnation : ℕ) → GossipEvent

unfoldable pub alive_for : Member → ℕ → GossipEvent
alive_for m incarnation = alive m.id m.name m.addr m.discovery_addr m.birthdate incarnation
