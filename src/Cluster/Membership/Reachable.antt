-- ===== src/Cluster/Membership/Reachable.antt =====
-- The histories of a membership view of crates/kamino-cluster/src/membership.rs: any sequence of
-- its methods, in any interleaving of the tasks that call them.
use kamino.Prelude.{ℕ}
use kamino.Cluster.Message.{Member, GossipEvent}
use kamino.Cluster.Membership.{
  Inner, bootstrap, apply, bump_local_incarnation, reap_suspects, evict_tombstones,
}
use kamino.Cluster.Membership.Valid.{
  IsValid, bootstrap-IsValid, apply-IsValid, bump_local_incarnation-IsValid,
}
use kamino.Cluster.Membership.Sweeps.{reap_suspects-IsValid, evict_tombstones-IsValid}

-- A view that some calls lead to from the bootstrap of the local member.
pub data Reachable (local : Member) : Inner → Type 0 where
  booted : Reachable local (bootstrap local)
  gossiped :
      {inner : Inner} (event : GossipEvent) (now timeout : ℕ)
      → Reachable local inner
      → Reachable local (apply inner event now timeout).1
  bumped :
      {inner : Inner} → Reachable local inner → Reachable local (bump_local_incarnation inner).1
  reaped_at :
      {inner : Inner} (now : ℕ)
      → Reachable local inner
      → Reachable local (reap_suspects inner now).1
  evicted_at :
      {inner : Inner} (older now : ℕ)
      → Reachable local inner
      → Reachable local (evict_tombstones inner older now)

-- Whatever the sequence of gossip events, bumps, reapings and evictions after the bootstrap, the
-- local member is alive at the local incarnation, every entry stands under its own id, and the
-- sorted ids are those of the map in the order of the birthdates.
pub Reachable-IsValid : (local : Member) (inner : Inner) → Reachable local inner → IsValid inner
Reachable-IsValid local _ booted = bootstrap-IsValid local
Reachable-IsValid local _ (gossiped {inner} event now timeout r) =
    apply-IsValid inner event now timeout (Reachable-IsValid local inner r)
Reachable-IsValid local _ (bumped {inner} r) =
    bump_local_incarnation-IsValid inner (Reachable-IsValid local inner r)
Reachable-IsValid local _ (reaped_at {inner} now r) =
    reap_suspects-IsValid inner now (Reachable-IsValid local inner r)
Reachable-IsValid local _ (evicted_at {inner} older now r) =
    evict_tombstones-IsValid inner older now (Reachable-IsValid local inner r)
