-- ===== src/Cluster/Tests.antt =====
-- Small runs of the cluster crate, and the theorems about it at concrete inputs.
use kamino.Prelude.{
  List, Option, none, ◌==◌, ◌||◌, ◌&&◌, not, AllDistinct, ℕ, ◌+◌, ◌≤◌, ◌≡◌, ◌≢◌, refl, false, [],
  ◌∷◌, some, arith, lookup, insert, remove, length, take, contains,
}
use kamino.Prelude.Sort.{sort, insert_sorted}
use kamino.Prelude.Sort
use kamino.Cluster.Message.{Member, v4, v6, GossipEvent, alive, suspect, dead, leave}
use kamino.Cluster.Membership.{
  is_alive, is_dead, MemberEntry, Inner, bootstrap, apply, apply_dead, reap_suspects,
  evict_tombstones, snapshot, reap, old_ids, remove_all, re_sort,
}
use kamino.Cluster.Membership.Valid.{IsValid, bootstrap-IsValid, apply-IsValid}
use kamino.Cluster.Membership.Reachable.{booted, gossiped, reaped_at, Reachable-IsValid}
use kamino.Cluster.Membership.Precedence.{IsMerged, standing, apply-merges, apply-commutes}
use kamino.Cluster.Membership.Entries.{Reaped, Evicted}
use kamino.Cluster.Membership.Sweeps.{
  announced, reap_suspects-IsValid, lookup-reap_suspects, lookup-evict_tombstones, evict-apply_dead,
}
use kamino.Cluster.Membership.Snapshot.{flagged, snapshot_ext, snapshot-unflagged}
use kamino.Cluster.Gossip.{GossipQueue, push, drain}
use kamino.Cluster.Gossip.Queue.{events, total_budget, HasBudget, length-push, drain_lem}
use kamino.Cluster.Routing.Table.{RoutingTable}
use kamino.Cluster.Routing.Coordinator.{ids, splice, Node, next, tick}
use kamino.Cluster.Routing.Coordinator.Clock.{IsCurrent, tick-accepts}
use kamino.Cluster.Routing.Coordinator.Handover.{Inherits}
use kamino.Cluster.Routing.Coordinator.Updates
use kamino.Cluster.Routing.Coordinator.Updates.{
  Shared, receive, advance, draw, Reachable, booted, stepped, arrived, advanced, left, drew, this,
  Reachable-current,
}
use kamino.Cluster.Routing.Coordinator.Owners.{splice_lem}
use kamino.Cluster.Envelope.{Envelope, ping_req, ok, max_datagram, encode, decode}
use kamino.Cluster.Envelope.RoundTrip.{received, decode-encode}
use kamino.Cluster.Routing.Store
use kamino.Cluster.Routing.Store.{
  unsupported_schema, signature, apply_all, newest, signature-apply_all, apply-apply,
}

abbrev local : Member
local = record {
  id = 5;
  name = [];
  addr = v4 1 1;
  discovery_addr = v4 1 2;
  birthdate = 20;
  is_coordinator = false;
}

-- A member that is older than the local one.
abbrev join : GossipEvent
join = alive 7 [] (v4 2 1) (v4 2 2) 10 3

abbrev view : Inner
view = (apply (bootstrap local) join 0 100).1

abbrev elder : MemberEntry
elder = record {
  member = record {
    id = 7;
    name = [];
    addr = v4 2 1;
    discovery_addr = v4 2 2;
    birthdate = 10;
    is_coordinator = false;
  };
  state = is_alive;
  incarnation = 3;
  suspect_deadline_ns = 0;
}

view-IsValid : IsValid view
view-IsValid = apply-IsValid (bootstrap local) join 0 100 (bootstrap-IsValid local)

known : lookup 7 view.by_id ≡ some elder
unfolding apply bootstrap lookup insert
known = refl

apply-merges_example : IsMerged view (suspect 7 3 5) elder (apply view (suspect 7 3 5) 9 100)
unfolding apply bootstrap lookup insert
apply-merges_example = apply-merges view elder 9 100 (suspect 7 3 5) refl refl

apply-commutes_example :
    standing 7 (apply (apply view (dead 7 3 5) 9 100).1 (suspect 7 4 5) 10 100).1
    ≡ standing 7 (apply (apply view (suspect 7 4 5) 9 100).1 (dead 7 3 5) 10 100).1
unfolding apply bootstrap lookup insert
apply-commutes_example =
    apply-commutes view elder (dead 7 3 5) (suspect 7 4 5) 9 10 100 refl refl refl (omega arith)

abbrev suspicious : Inner
suspicious = (apply view (suspect 7 3 5) 9 100).1

suspicious-IsValid : IsValid suspicious
suspicious-IsValid = apply-IsValid view (suspect 7 3 5) 9 100 view-IsValid

reap_suspects_example :
    Reaped 200
      (lookup 7 suspicious.by_id)
      (lookup 7 (reap_suspects suspicious 200).1.by_id)
      (contains 7 (announced (reap_suspects suspicious 200).0))
reap_suspects_example = lookup-reap_suspects suspicious 200 suspicious-IsValid 7

-- The suspect was declared dead at the time 200.
abbrev buried : Inner
buried = (reap_suspects suspicious 200).1

buried-IsValid : IsValid buried
buried-IsValid = reap_suspects-IsValid suspicious 200 suspicious-IsValid

evict_tombstones_example :
    Evicted 5 500 (lookup 7 buried.by_id) (lookup 7 (evict_tombstones buried 5 500).by_id)
evict_tombstones_example = lookup-evict_tombstones buried 5 500 buried-IsValid 7

evicted_runs : lookup 7 (evict_tombstones buried 5 500).by_id ≡ none
unfolding reap_suspects reap evict_tombstones old_ids remove_all re_sort apply bootstrap lookup
    insert remove
evicted_runs = refl

evict-apply_dead_example :
    (e : MemberEntry) × (e.state ≡ is_dead)
    × (lookup 7 (apply_dead view 7 3).1.by_id ≡ some e)
    × (lookup 7 (evict_tombstones (apply_dead view 7 3).1 5 500).by_id ≡ some e)
unfolding apply apply_dead bootstrap lookup insert
evict-apply_dead_example = evict-apply_dead view 7 3 5 500 view-IsValid refl

-- The same view, learned in two orders.
abbrev other_order : Inner
other_order = (apply suspicious (alive 7 [] (v4 2 1) (v4 2 2) 10 3) 9 100).1

snapshot_ext_example : snapshot view ≡ snapshot other_order
unfolding apply bootstrap lookup insert remove
snapshot_ext_example =
    snapshot_ext view other_order view-IsValid
      (apply-IsValid suspicious (alive 7 [] (v4 2 1) (v4 2 2) 10 3) 9 100 suspicious-IsValid)
      λ k. refl

-- The older member has died.
abbrev headless : Inner
headless = (apply_dead view 7 3).1

snapshot-unflagged_example : flagged (snapshot headless) ≡ []
unfolding apply apply_dead bootstrap lookup insert remove sort Sort.keys insert_sorted
snapshot-unflagged_example =
    snapshot-unflagged headless 7 (5 ∷ [])
      (record elder { state = is_dead; incarnation = 3; suspect_deadline_ns = 0 }) refl refl refl

abbrev queue : GossipQueue
queue = record { pending = record { event = join; budget = 2 } ∷ []; capacity = 1 }

length-push_example :
    (length (push queue (leave 7 3) 4).pending ≤ 1) × ((push queue (leave 7 3) 4).capacity ≡ 1)
length-push_example = length-push queue (leave 7 3) 4 (omega arith) (omega arith)

drain_example :
    ((drain 3 queue.pending).0 ≡ take 3 (events queue.pending))
    × (total_budget (drain 3 queue.pending).1 + length (drain 3 queue.pending).0
        ≡ total_budget queue.pending)
    × HasBudget (drain 3 queue.pending).1
drain_example = drain_lem 3 queue.pending (omega arith, tt)

abbrev table : ℕ → RoutingTable
table n = record { schema_version = 1; signature = n; members = []; primary = []; backup = [] }

signature_example :
    signature (apply_all (some (table 2)) (table 4 ∷ table 3 ∷ []))
    ≡ newest (signature (some (table 2))) (table 4 ∷ table 3 ∷ [])
signature_example = signature-apply_all (some (table 2)) (table 4 ∷ table 3 ∷ [])

apply-apply_example :
    ((Store.apply (Store.apply (some (table 2)) (table 3)).1 (table 4)).1
      ≡ (Store.apply (Store.apply (some (table 2)) (table 4)).1 (table 3)).1)
    × ((Store.apply (some (table 2)) (table 3)).0 ≢ unsupported_schema)
apply-apply_example = apply-apply (some (table 2)) (table 3) (table 4) λ e. omega (arith, e)

-- Partition 0 moves from the elder to the local member.
abbrev before : RoutingTable
before = record (table 1) { primary = (0, elder.member ∷ []) ∷ [] }

abbrev after : RoutingTable
after = record (table 2) { primary = (0, local ∷ []) ∷ [] }

-- A coordinator that gave partition 0 to the elder, and builds a table for a new topology.
abbrev settled : Node
settled = record {
  clock = 1;
  store = some before;
  last_topology_hash = some 1;
  current_table = some before;
}

settled-IsCurrent : IsCurrent settled
unfolding signature
settled-IsCurrent = record { not_behind = omega arith; fits = omega arith }

-- A build that gives partition 0 to the local member.
abbrev build : List Member → ℕ → Option RoutingTable
build ms sig = some (record (table sig) { primary = (0, local ∷ []) ∷ [] })

abbrev ticked : Node
ticked = (tick length build (λ t. none) 5 settled (local ∷ elder.member ∷ [])).1

tick_example :
    (stored : RoutingTable) × (ticked.store ≡ some stored)
    × (ticked.current_table ≡ some stored)
    × (stored.signature ≡ 2)
    × Inherits (some before) (local ∷ elder.member ∷ []) after stored
    × IsCurrent ticked
tick_example =
    tick-accepts length build (λ t. none) (λ ms sig t e. ground (arith, e)) settled local
      (elder.member ∷ []) after settled-IsCurrent (omega arith) (λ e. ground (arith, e)) refl

-- An update is stored, its loop and a rebuild move the clock, and the update is done.
abbrev updated_node : Shared
updated_node = record (draw (advance (receive Updates.fresh (table 2)).1)) { bumping = [] }

updated_node-Reachable : Reachable updated_node
unfolding receive advance draw next Store.apply
updated_node-Reachable =
    stepped
      (stepped (stepped (stepped booted (arrived (table 2))) (advanced (omega arith)))
        (drew (omega arith)))
      (left 2 [] (this []) (omega arith))

update_example : signature updated_node.store ≤ updated_node.clock
unfolding receive advance draw Store.apply
update_example = Reachable-current updated_node updated_node-Reachable refl

splice_example :
    (contains 7
        (ids (splice (ids (elder.member ∷ local ∷ [])) (some (elder.member ∷ [])) (local ∷ [])))
      ≡ ((5 == 7)
          || (contains 7 (ids (elder.member ∷ []))
              && contains 7 (ids (elder.member ∷ local ∷ []))
              && not (7 == 5))))
    × AllDistinct
        (ids (splice (ids (elder.member ∷ local ∷ [])) (some (elder.member ∷ [])) (local ∷ [])))
unfolding contains
splice_example = splice_lem (elder.member ∷ local ∷ []) local elder.member [] 7 refl refl

-- A history: the elder joins, is suspected, and is declared dead when its time is up.
Reachable_example : IsValid (reap_suspects suspicious 200).1
Reachable_example =
    Reachable-IsValid local (reap_suspects suspicious 200).1
      (reaped_at 200 (gossiped (suspect 7 3 5) 9 100 (gossiped join 0 100 booted)))

-- A request to ping a member at an address with a flow information and a scope.
abbrev envelope : Envelope
envelope = record { cluster_secret = []; from = 5; msg = ping_req 1 7 (v6 3 4 8 9); gossip = [] }

-- A body codec for such requests that carry nothing else, in the binary form of `serde`.
abbrev write_body : Envelope → Option (List ℕ)
write_body e = elim e.gossip [
  | _ ∷ _ ↦ none
  | [] ↦ elim e.cluster_secret [
    | _ ∷ _ ↦ none
    | [] ↦ elim e.msg [
      | ping_req seq target (v6 ip port flowinfo scope_id) ↦
          some (e.from ∷ seq ∷ target ∷ ip ∷ port ∷ [])
      | _ ↦ none
    ]
  ]
]

abbrev read_body : List ℕ → Option Envelope
read_body (f ∷ seq ∷ target ∷ ip ∷ port ∷ []) = some (record {
  cluster_secret = [];
  from = f;
  msg = ping_req seq target (v6 ip port 0 0);
  gossip = [];
})
read_body _ = none

read-write_body :
    (e : Envelope) (body : List ℕ) → write_body e ≡ some body → read_body body ≡ some (received e)
read-write_body e body h = ground arith

abbrev datagram : List ℕ
datagram = 75 ∷ 109 ∷ 1 ∷ 0 ∷ 5 ∷ 1 ∷ 7 ∷ 3 ∷ 4 ∷ []

decode-encode_example :
    (decode write_body read_body datagram ≡ ok (received envelope))
    × (length datagram ≤ max_datagram)
unfolding encode
decode-encode_example = decode-encode write_body read_body read-write_body envelope datagram refl
