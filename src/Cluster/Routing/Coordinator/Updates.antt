-- ===== src/Cluster/Routing/Coordinator/Updates.antt =====
-- `apply_routing_update` of crates/kamino-cluster/src/cluster.rs beside the coordinator's loop: the
-- tasks share the signature clock and the routing store, and run between each other's calls.
use kamino.Prelude.{
  inl, inr, Option-cases, ℕ, ◌+◌, ◌^◌, ◌≤◌, ◌<◌, ◌≡◌, List, [], ◌∷◌, Option, none, some, arith, max,
}
use kamino.Cluster.Routing.Table.{RoutingTable}
use kamino.Cluster.Routing.Store.{
  ApplyRoutingOutcome, accepted, stale, unsupported_schema, RoutingTableStore, apply, signature,
  signature-apply,
}
use kamino.Cluster.Routing.Coordinator.{next}

-- What the tasks share, and where they stand: the targets of the updates that are in the loop of
-- `bump_signature_to_at_least`, and the signature that a rebuild has drawn and not stored yet.
pub record Shared : Type 0 where
  pub clock : ℕ
  pub store : RoutingTableStore
  pub bumping : List ℕ
  pub drawn : Option ℕ

abbrev pub fresh : Shared
fresh = record { clock = 0; store = none; bumping = []; drawn = none }

-- What an update does next, by the outcome of the store.
abbrev pub enter : ApplyRoutingOutcome → ℕ → List ℕ → List ℕ
enter accepted incoming_sig bumping = incoming_sig ∷ bumping
enter stale incoming_sig bumping = bumping
enter unsupported_schema incoming_sig bumping = bumping

-- `routing_store.apply` in `apply_routing_update`: an accepted update goes on to the loop.
unfoldable pub receive : Shared → RoutingTable → ApplyRoutingOutcome × Shared
receive s table =
    let (outcome, store) = apply s.store table in
    (outcome, record s { store = store; bumping = enter outcome table.signature s.bumping })

-- `routing_signature.next`, of an update in its loop
unfoldable pub advance : Shared → Shared
advance s = record s { clock = next s.clock }

-- `signature.next` of a rebuild
unfoldable pub draw : Shared → Shared
draw s = record s { clock = next s.clock; drawn = some (next s.clock) }

-- `store.apply` of a rebuild
unfoldable pub store_built : Shared → RoutingTable → Shared
store_built s table = record s { store = (apply s.store table).1; drawn = none }

-- One of the updates in their loop leaves it.
pub data Leaves (target : ℕ) : List ℕ → List ℕ → Type 0 where
  this : (rest : List ℕ) → Leaves target (target ∷ rest) rest
  later :
      (other : ℕ) {before after : List ℕ}
      → Leaves target before after
      → Leaves target (other ∷ before) (other ∷ after)

-- One call of one task. An update calls `next` when it has read a clock below its target, which
-- another task may have moved since.
pub data Step (s : Shared) : Shared → Type 0 where
  arrived : (table : RoutingTable) → Step s (receive s table).1
  advanced : s.clock + 1 < 2 ^ 64 → Step s (advance s)
  left :
      (target : ℕ) (bumping : List ℕ)
      → Leaves target s.bumping bumping
      → target ≤ s.clock
      → Step s (record s { bumping = bumping })
  drew : s.clock + 1 < 2 ^ 64 → Step s (draw s)
  gave_up : Step s (record s { drawn = none })
  built : (table : RoutingTable) → s.drawn ≡ some table.signature → Step s (store_built s table)

-- The states that a node comes to while its clock does not wrap.
pub data Reachable : Shared → Type 0 where
  booted : Reachable fresh
  stepped : {s t : Shared} → Reachable s → Step s t → Reachable t

abbrev largest : List ℕ → ℕ
largest [] = 0
largest (n ∷ ns) = max n (largest ns)

Leaves-largest :
    {target : ℕ} {before after : List ℕ}
    → Leaves target before after
    → largest before ≤ max target (largest after)
Leaves-largest (this rest) = omega arith
Leaves-largest (later other l) = omega (arith, Leaves-largest l)

-- The clock is not behind the store, but for the updates in their loop.
record IsTracked (s : Shared) : Type 0 where
  tracked : signature s.store ≤ max s.clock (largest s.bumping)
  own : (sig : ℕ) → s.drawn ≡ some sig → sig ≤ s.clock

receive-tracked :
    (s : Shared) (table : RoutingTable)
    → signature s.store ≤ max s.clock (largest s.bumping)
    → signature (receive s table).1.store
      ≤ max (receive s table).1.clock (largest (receive s table).1.bumping)
unfolding receive apply signature
receive-tracked s table h = elim (Option-cases s.store) [
  | inl empty' ↦ ground (arith, h)
  | inr (current, there) ↦ ground (arith, h)
]

next-next : (n : ℕ) → n + 1 < 2 ^ 64 → next n ≡ n + 1
unfolding next
next-next n small = omega (arith, small)

Step-IsTracked : {s t : Shared} → IsTracked s → Step s t → IsTracked t
unfolding receive advance draw store_built
Step-IsTracked {s} i (arrived table) = record {
  tracked = receive-tracked s table i.tracked;
  own = i.own;
}
Step-IsTracked {s} i (advanced small) =
    let n = next-next s.clock small in
    record { tracked = omega (arith, i.tracked, n); own = λ sig p. omega (arith, i.own sig p, n) }
Step-IsTracked {s} i (left target bumping l there) = record {
  tracked = omega (arith, i.tracked, Leaves-largest l, there);
  own = i.own;
}
Step-IsTracked {s} i (drew small) =
    let n = next-next s.clock small in
    record { tracked = omega (arith, i.tracked, n); own = λ sig p. ground arith }
Step-IsTracked {s} i gave_up = record { tracked = i.tracked; own = λ sig p. absurd (ground arith) }
Step-IsTracked {s} i (built table p) = record {
  tracked = omega (arith, i.tracked, i.own table.signature p, signature-apply s.store table);
  own = λ sig q. absurd (ground arith);
}

Reachable-IsTracked : {s : Shared} → Reachable s → IsTracked s
unfolding signature
Reachable-IsTracked booted = record { tracked = omega arith; own = λ sig p. absurd (ground arith) }
Reachable-IsTracked (stepped r step) = Step-IsTracked (Reachable-IsTracked r) step

-- From a fresh node, however the calls of routing updates and of rebuilds come between each other
-- while the clock does not wrap, the clock is not behind the stored signature whenever no update
-- is in its loop.
pub Reachable-current : (s : Shared) → Reachable s → s.bumping ≡ [] → signature s.store ≤ s.clock
Reachable-current s r calm = ground (arith, (Reachable-IsTracked r).tracked)
