-- ===== src/Cluster/Routing/Coordinator.antt =====
-- crates/kamino-cluster/src/routing/coordinator.rs: the coordinator's loop, and the loop on the
-- signature clock of crates/kamino-cluster/src/cluster.rs. One node's state is its signature clock, its store and
-- the variables of the loop.
pub mod Owners
pub mod Handover
pub mod Clock
pub mod Updates
use kamino.Prelude.{
  ℕ, zero, suc, ◌+◌, ◌-◌, ◌%◌, ◌^◌, Bool, true, false, not, ◌||◌, List, [], ◌∷◌, ◌++◌, Option, none,
  some, ltb, ◌==◌, if◌then◌else◌, HashMap, lookup, contains,
}
use kamino.Cluster.Message.{Member, SocketAddr}
use kamino.Cluster.Routing.Table.{RoutingTable, first}
use kamino.Cluster.Routing.Store.{
  ApplyRoutingOutcome, accepted, stale, unsupported_schema, RoutingTableStore, apply,
}

abbrev pub ids : List Member → List ℕ
ids [] = []
ids (m ∷ ms) = m.id ∷ ids ms

-- The loop over the previous owners of a partition.
unfoldable pub append_ancestors :
    (new_primary_id : ℕ) (live_ids : List ℕ) → List Member → List Member → List Member
append_ancestors new_primary_id live_ids owners_new [] = owners_new
append_ancestors new_primary_id live_ids owners_new (ancestor ∷ prev_owners) =
    let skipped = append_ancestors new_primary_id live_ids owners_new prev_owners in
    let pushed =
      append_ancestors new_primary_id live_ids (owners_new ++ ancestor ∷ []) prev_owners in
    if ancestor.id == new_primary_id
      || not (contains ancestor.id live_ids)
      || contains ancestor.id (ids owners_new)
    then skipped
    else pushed

-- What becomes of the owners of one partition.
unfoldable pub splice : (live_ids : List ℕ) → Option (List Member) → List Member → List Member
splice live_ids none owners_new = owners_new
splice live_ids (some []) owners_new = owners_new
splice live_ids (some (prev_primary ∷ more)) [] = []
splice live_ids (some (prev_primary ∷ more)) (new_primary ∷ owners) =
    if prev_primary.id == new_primary.id || not (contains prev_primary.id live_ids)
    then new_primary ∷ owners
    else append_ancestors new_primary.id live_ids (new_primary ∷ owners) (prev_primary ∷ more)

unfoldable pub splice_all :
    HashMap (List Member) → List ℕ → HashMap (List Member) → HashMap (List Member)
splice_all prev live_ids [] = []
splice_all prev live_ids ((part, owners) ∷ new) =
    (part, splice live_ids (lookup part prev) owners) ∷ splice_all prev live_ids new

unfoldable pub preserve_previous_owners : RoutingTable → RoutingTable → List Member → RoutingTable
preserve_previous_owners new prev live = record new {
  primary = splice_all prev.primary (ids live) new.primary;
}

-- `SignatureClock::next`
unfoldable pub next : ℕ → ℕ
next c = (c + 1) % 2 ^ 64

pub record Node : Type 0 where
  pub clock : ℕ
  pub store : RoutingTableStore
  pub last_topology_hash : Option ℕ
  pub current_table : Option RoutingTable

abbrev pub start : Node
start = record { clock = 0; store = none; last_topology_hash = none; current_table = none }

-- `while current < target { next }`: a clock that does not wrap is there after `target - current`
-- rounds.
unfoldable pub bump : (fuel target current : ℕ) → ℕ
bump zero target current = current
bump (suc fuel) target current =
    let rest = bump fuel target (next current) in if ltb current target then rest else current

unfoldable pub bump_signature_to_at_least : Node → ℕ → Node
bump_signature_to_at_least node target = record node {
  clock = bump (target - node.clock) target node.clock;
}

-- The topology hash, the build of a table with a signature, and its encoding.
module _ (topology_hash : List Member → ℕ) (build : List Member → ℕ → Option RoutingTable)
    (to_msgpack : RoutingTable → Option (List ℕ)) where
  abbrev pub with_owners : Option RoutingTable → RoutingTable → List Member → RoutingTable
  with_owners none table snapshot = table
  with_owners (some prev) table snapshot = preserve_previous_owners table prev snapshot

  -- The table built for a new topology; `none` when the build gives none, which skips the tick.
  unfoldable pub rebuild : Node → List Member → ℕ → Option Node × ℕ
  rebuild node snapshot topo =
      let next_sig = next node.clock in
      (
        elim (build snapshot next_sig) [
          | none ↦ none
          | some built ↦
              let table = with_owners node.current_table built snapshot in
              some (record {
                clock = next_sig;
                store = (apply node.store table).1;
                last_topology_hash = some topo;
                current_table = some table;
              })
        ],
        next_sig,
      )

  unfoldable pub targets : ℕ → List Member → List SocketAddr
  targets local_id [] = []
  targets local_id (m ∷ ms) =
      let rest = targets local_id ms in if m.id == local_id then rest else m.addr ∷ rest

  abbrev pub pushed : Node → ℕ → List Member → Option (List ℕ × List SocketAddr)
  pushed node local_id snapshot = elim node.current_table [
    | none ↦ none
    | some table ↦ elim (to_msgpack table) [
      | none ↦ none
      | some bytes ↦ some (bytes, targets local_id snapshot)
    ]
  ]

  abbrev pub is_last : Option ℕ → ℕ → Bool
  is_last none topo = false
  is_last (some last) topo = last == topo

  -- One round of the loop: what is pushed to whom, and the node after it.
  unfoldable pub tick : ℕ → Node → List Member → Option (List ℕ × List SocketAddr) × Node
  unfolding rebuild
  tick local_id node [] = (none, node)
  tick local_id node (m ∷ ms) =
      let snapshot = m ∷ ms in
      let topo = topology_hash snapshot in
      if not (m.id == local_id)
      then (none, node)
      else if is_last node.last_topology_hash topo
      then (pushed node local_id snapshot, node)
      else let (built, next_sig) = rebuild node snapshot topo in
        elim built [
          | none ↦ (none, record node { clock = next_sig })
          | some node' ↦ (pushed node' local_id snapshot, node')
        ]
