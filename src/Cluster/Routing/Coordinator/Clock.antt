-- ===== src/Cluster/Routing/Coordinator/Clock.antt =====
-- The signature clock against the routing store: a coordinator's own tables are always fresh.
use kamino.Prelude.{
  ℕ, zero, suc, ◌+◌, ◌-◌, ◌%◌, ◌^◌, ◌≤◌, ◌<◌, ◌≡◌, ◌≢◌, refl, ◌∙◌, List, ◌∷◌, Option, none, some,
  arith, ap, ltb, max, inl, inr, Option-cases, Bool-cases,
}
use kamino.Cluster.Message.{Member}
use kamino.Cluster.Routing.Table.{RoutingTable}
use kamino.Cluster.Routing.Store.{RoutingTableStore, apply, signature}
use kamino.Cluster.Routing.Coordinator.Handover.{
  Inherits, preserve_previous_owners-Inherits, built-Inherits,
}
use kamino.Cluster.Routing.Coordinator.{next, Node, start, bump, tick, rebuild, with_owners}

-- The loop ends at the target, or where it was when it was there already.
pub bump_lem :
    (fuel target current : ℕ)
    → target < 2 ^ 64
    → target - current ≤ fuel
    → bump fuel target current ≡ max current target
unfolding bump next
bump_lem zero target current small enough = omega (arith, enough)
bump_lem (suc fuel) target current small enough = elim (Bool-cases (ltb current target)) [
  | inl below ↦
      let p : current < target = ground arith in
      let same : (current + 1) % 2 ^ 64 ≡ current + 1 = omega (arith, p, small) in
      let rest = bump_lem fuel target (current + 1) small (omega (arith, enough, p)) in
      rw (below, same) (rest ∙ omega (arith, p))
  | inr there ↦ let p : target ≤ current = ground arith in rw there (omega (arith, p))
]

-- The clock is not behind the table that is stored.
pub record IsCurrent (node : Node) : Type 0 where
  pub not_behind : signature node.store ≤ node.clock
  pub fits : node.clock < 2 ^ 64

pub start-IsCurrent : IsCurrent start
unfolding signature
start-IsCurrent = record { not_behind = omega arith; fits = omega arith }

-- A store takes a table that is newer.
apply-newer :
    (s : RoutingTableStore) (rt : RoutingTable)
    → signature s < rt.signature
    → (apply s rt).1 ≡ some rt
unfolding apply signature
apply-newer none rt h = refl
apply-newer (some current) rt h = ground arith

module _ (topology_hash : List Member → ℕ) (build : List Member → ℕ → Option RoutingTable)
    (to_msgpack : RoutingTable → Option (List ℕ))
    (signed : (members : List Member) (sig : ℕ) (table : RoutingTable)
      → build members sig ≡ some table
      → table.signature ≡ sig) where
  rebuilt : Node → List Member → RoutingTable → Node
  rebuilt node ms table =
      let owned = with_owners topology_hash build to_msgpack node.current_table table ms in
      record {
        clock = node.clock + 1;
        store = (apply node.store owned).1;
        last_topology_hash = some (topology_hash ms);
        current_table = some owned;
      }

  tick_rebuilds :
      (node : Node) (m : Member) (ms : List Member) (table : RoutingTable)
      → node.clock + 1 < 2 ^ 64
      → node.last_topology_hash ≢ some (topology_hash (m ∷ ms))
      → build (m ∷ ms) (node.clock + 1) ≡ some table
      → (tick topology_hash build to_msgpack m.id node (m ∷ ms)).1 ≡ rebuilt node (m ∷ ms) table
  unfolding tick rebuild next rebuilt
  tick_rebuilds node m ms table small changed built =
      let same : (node.clock + 1) % 2 ^ 64 ≡ node.clock + 1 = omega (arith, small) in
      rw same (elim (Option-cases node.last_topology_hash) [
        | inl first' ↦ ground (arith, built)
        | inr (last, was) ↦ ground (arith, built)
      ])

  with_owners-Inherits :
      (prev : Option RoutingTable) (table : RoutingTable) (ms : List Member)
      → Inherits prev ms table (with_owners topology_hash build to_msgpack prev table ms)
  with_owners-Inherits none table ms = built-Inherits table ms
  with_owners-Inherits (some prev) table ms = preserve_previous_owners-Inherits table prev ms

  -- In a round that no other task comes between, a coordinator whose clock is not behind its
  -- store, not about to wrap, that sees a new topology and can build a table for it, stores a
  -- table with the next signature of the clock, which is also the one it goes on with, and the
  -- clock stays not behind. The table is the built one but for the owners: where the primary of a
  -- partition moves away from a live member, its live previous owners follow the built ones. The
  -- build is any that gives a table the signature it is asked for.
  pub tick-accepts :
      (node : Node) (m : Member) (ms : List Member) (table : RoutingTable)
      → IsCurrent node
      → node.clock + 1 < 2 ^ 64
      → node.last_topology_hash ≢ some (topology_hash (m ∷ ms))
      → build (m ∷ ms) (node.clock + 1) ≡ some table
      → (stored : RoutingTable) × ((tick topology_hash build to_msgpack m.id node (m ∷ ms)).1.store
          ≡ some stored)
        × ((tick topology_hash build to_msgpack m.id node (m ∷ ms)).1.current_table ≡ some stored)
        × (stored.signature ≡ node.clock + 1)
        × Inherits node.current_table (m ∷ ms) table stored
        × IsCurrent (tick topology_hash build to_msgpack m.id node (m ∷ ms)).1
  unfolding rebuilt signature
  tick-accepts node m ms table c small changed built =
      let done = tick_rebuilds node m ms table small changed built in
      let owned = with_owners topology_hash build to_msgpack node.current_table table (m ∷ ms) in
      let kept = with_owners-Inherits node.current_table table (m ∷ ms) in
      let sig : owned.signature ≡ node.clock + 1 =
        kept.same_signature ∙ signed (m ∷ ms) (node.clock + 1) table built in
      let newer : signature node.store < owned.signature = omega (arith, sig, c.not_behind) in
      let there = apply-newer node.store owned newer in
      let at : signature (apply node.store owned).1 ≡ node.clock + 1 = ap signature there ∙ sig in
      rw done
        (owned, there, refl, sig, kept, record { not_behind = omega (arith, at); fits = small })
