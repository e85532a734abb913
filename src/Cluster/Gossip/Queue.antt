-- ===== src/Cluster/Gossip/Queue.antt =====
-- What the gossip queue of crates/kamino-cluster/src/gossip.rs promises.
use kamino.Prelude.{
  ℕ, zero, suc, ◌+◌, ◌≤◌, ◌<◌, ◌≡◌, refl, ap, List, [], ◌∷◌, some, arith, inl, inr, Option-cases,
  length, length-append, take,
}
use kamino.Cluster.Message.{GossipEvent}
use kamino.Cluster.Gossip.{budget_for, Pending, GossipQueue, raise_budget, make_room, push, drain}

abbrev pub events : List Pending → List GossipEvent
events [] = []
events (p ∷ ps) = p.event ∷ events ps

-- The sends that are still to come.
abbrev pub total_budget : List Pending → ℕ
total_budget [] = 0
total_budget (p ∷ ps) = p.budget + total_budget ps

abbrev pub HasBudget : List Pending → Type 0
HasBudget [] = Unit
HasBudget (p ∷ ps) = (0 < p.budget) × HasBudget ps

length-raise_budget :
    (event : GossipEvent) (b : ℕ) (ps ps' : List Pending)
    → raise_budget event b ps ≡ some ps'
    → length ps' ≡ length ps
unfolding raise_budget
length-raise_budget event b [] ps' h = cc
length-raise_budget event b (p ∷ ps) ps' h = elim (Option-cases (raise_budget event b ps)) [
  | inl absent ↦ ground arith
  | inr (qs, there) ↦ ground (arith, length-raise_budget event b ps qs there)
]

length-make_room :
    (capacity : ℕ) (ps : List Pending)
    → 0 < capacity
    → length ps ≤ capacity
    → length (make_room capacity ps) < capacity
length-make_room capacity [] pos fits = ground arith
length-make_room capacity (p ∷ ps) pos fits = ground arith

-- A queue with a positive capacity that holds no more events than it still does so after a push,
-- and its capacity stays.
pub length-push :
    (q : GossipQueue) (event : GossipEvent) (n : ℕ)
    → 0 < q.capacity
    → length q.pending ≤ q.capacity
    → (length (push q event n).pending ≤ q.capacity) × ((push q event n).capacity ≡ q.capacity)
unfolding push
length-push q event n pos fits = elim (Option-cases (raise_budget event (budget_for n) q.pending)) [
  | inl absent ↦
      let b : Pending = record { event = event; budget = budget_for n } in
      ground (
        arith,
        length-make_room q.capacity q.pending pos fits,
        length-append (make_room q.capacity q.pending) (b ∷ []),
      )
  | inr (ps, there) ↦ ground (arith, length-raise_budget event (budget_for n) q.pending ps there)
]

-- A drain of entries with budget sends the oldest events, as many as asked for and there are; each
-- send takes one off the budgets that are left, and what is left still has budget.
pub drain_lem :
    (n : ℕ) (ps : List Pending)
    → HasBudget ps
    → ((drain n ps).0 ≡ take n (events ps))
      × (total_budget (drain n ps).1 + length (drain n ps).0 ≡ total_budget ps)
      × HasBudget (drain n ps).1
unfolding drain
drain_lem zero ps h = (refl, omega arith, h)
drain_lem (suc n) [] h = (refl, refl, h)
drain_lem (suc n) (p ∷ ps) h =
    let (sent, left, positive) = drain_lem n ps h.1 in
    (ap (◌∷◌ p.event) sent, ground (arith, left, h.0), ground (arith, positive, h.0))
