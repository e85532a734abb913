-- ===== src/Cluster/Gossip.antt =====
-- crates/kamino-cluster/src/gossip.rs: the queue of events that messages carry along. The mutex
-- around it is taken for each whole method.
pub mod Budget
pub mod Queue
use kamino.Prelude.{
  ℕ, zero, suc, ◌+◌, ◌-◌, ◌*◌, ◌/◌, ◌^◌, Bool, true, false, ◌&&◌, List, [], ◌∷◌, ◌++◌, Option, none,
  some, ltb, ◌==◌, if◌then◌else◌, max, min, length,
}
use kamino.Cluster.Message.{SocketAddr, v4, v6, GossipEvent, alive, suspect, dead, leave}

-- The derived equality of events.
unfoldable pub same_bytes : List ℕ → List ℕ → Bool
same_bytes [] [] = true
same_bytes (x ∷ xs) (y ∷ ys) = x == y && same_bytes xs ys
same_bytes _ _ = false

abbrev pub same_addr : SocketAddr → SocketAddr → Bool
same_addr (v4 i p) (v4 j q) = i == j && p == q
same_addr (v6 i p f s) (v6 j q g t) = i == j && p == q && f == g && s == t
same_addr _ _ = false

unfoldable pub same_event : GossipEvent → GossipEvent → Bool
same_event (alive i n a d b inc) (alive i' n' a' d' b' inc') =
    i == i' && same_bytes n n' && same_addr a a' && same_addr d d' && b == b' && inc == inc'
same_event (suspect i inc f) (suspect i' inc' f') = i == i' && inc == inc' && f == f'
same_event (dead i inc f) (dead i' inc' f') = i == i' && inc == inc' && f == f'
same_event (leave i inc) (leave i' inc') = i == i' && inc == inc'
same_event _ _ = false

abbrev pub gossip_fanout_mult : ℕ
gossip_fanout_mult = 3

abbrev pub u32_max : ℕ
u32_max = 2 ^ 32 - 1

-- `32 - n.leading_zeros()`: the number of binary digits, of which there are at most `fuel`.
unfoldable pub bit_length : (fuel : ℕ) → ℕ → ℕ
bit_length zero n = 0
bit_length (suc fuel) n = let rest = bit_length fuel (n / 2) in if n == 0 then 0 else suc rest

unfoldable pub budget_for : ℕ → ℕ
budget_for live_member_count =
    let n = min (max live_member_count 1) u32_max in
    min (gossip_fanout_mult * bit_length 32 n) u32_max

pub record Pending : Type 0 where
  pub event : GossipEvent
  pub budget : ℕ

pub record GossipQueue : Type 0 where
  pub pending : List Pending
  pub capacity : ℕ

unfoldable pub with_capacity : ℕ → GossipQueue
with_capacity capacity = record { pending = []; capacity = capacity }

-- The first entry with an equal event gets the larger of its budget and `b`; `none` when there is
-- no such entry.
unfoldable pub raise_budget : GossipEvent → ℕ → List Pending → Option (List Pending)
raise_budget event b [] = none
raise_budget event b (p ∷ ps) =
    let rest = raise_budget event b ps in
    if same_event p.event event
    then some (record p { budget = max p.budget b } ∷ ps)
    else elim rest [ none ↦ none | some ps' ↦ some (p ∷ ps') ]

abbrev pop_front : List Pending → List Pending
pop_front [] = []
pop_front (p ∷ ps) = ps

-- A full queue loses its oldest event.
abbrev pub make_room : ℕ → List Pending → List Pending
make_room capacity ps = if length ps == capacity && ltb 0 capacity then pop_front ps else ps

unfoldable pub push : GossipQueue → GossipEvent → ℕ → GossipQueue
push q event live_member_count =
    let b = budget_for live_member_count in
    elim (raise_budget event b q.pending) [
      | some pending ↦ record q { pending = pending }
      | none ↦ record q {
        pending = make_room q.capacity q.pending ++ record { event = event; budget = b } ∷ [];
      }
    ]

-- The loop of `drain_for_send`, from the entry at `idx` on: the events sent and the entries left.
unfoldable pub drain : ℕ → List Pending → List GossipEvent × List Pending
drain zero ps = ([], ps)
drain (suc n) [] = ([], [])
drain (suc n) (p ∷ ps) =
    let (out, ps') = drain n ps in
    (p.event ∷ out, if p.budget - 1 == 0 then ps' else record p { budget = p.budget - 1 } ∷ ps')

unfoldable pub drain_for_send : GossipQueue → ℕ → List GossipEvent × GossipQueue
drain_for_send q max_events =
    let (out, pending) = drain max_events q.pending in (out, record q { pending = pending })

unfoldable pub len : GossipQueue → ℕ
len q = length q.pending

unfoldable pub is_empty : GossipQueue → Bool
is_empty q = elim q.pending [ [] ↦ true | _ ∷ _ ↦ false ]
