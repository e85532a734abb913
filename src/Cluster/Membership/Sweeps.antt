-- ===== src/Cluster/Membership/Sweeps.antt =====
-- `reap_suspects` and `evict_tombstones` of crates/kamino-cluster/src/membership.rs.
use kamino.Prelude.{
  ℕ, ◌≡◌, refl, sym, ap, ◌∙◌, Bool, false, List, [], ◌∷◌, Option, none, some, arith, HashMap,
  lookup, remove, IsMap, inl, inr, Option-cases, if◌then◌else◌, contains, lookup-remove,
  lookup-insert, subst, remove-IsMap,
}
use kamino.Cluster.Membership.{
  is_dead, MemberEntry, Inner, updated, re_sort, sorted_ids, reap, reap_suspects, is_old, old_ids,
  remove_all, evict_tombstones, apply_dead,
}
use kamino.Cluster.Membership.Entries.{
  Reaped, reaped, due?, reaped-Reaped, Evicted, evicted, evicted-Evicted,
}
use kamino.Cluster.Membership.Order.{sorted_ids_ext}
use kamino.Cluster.Membership.Valid.{IsValid, apply_dead-IsValid}

lookup-reap :
    (now : ℕ) (m : HashMap MemberEntry) (k : ℕ) → lookup k (reap now m).1 ≡ reaped now (lookup k m)
unfolding reap lookup
lookup-reap now [] k = refl
lookup-reap now ((id, e) ∷ m) k = ground (arith, lookup-reap now m k)

-- The members that are announced dead.
abbrev pub announced : List (ℕ × ℕ) → List ℕ
announced [] = []
announced ((id, incarnation) ∷ promoted) = id ∷ announced promoted

contains-reap :
    (now : ℕ) (m : HashMap MemberEntry)
    → IsMap m
    → ((k : ℕ) (e : MemberEntry) → lookup k m ≡ some e → e.member.id ≡ k)
    → (k : ℕ) → contains k (announced (reap now m).0) ≡ due? now (lookup k m)
unfolding reap contains lookup
contains-reap now [] i h k = refl
contains-reap now ((id, e) ∷ m) i h k =
    ground (arith, h id e, contains-reap now m i.1 (λ j x p. h j x (ground arith)) k)

reap-IsMap : (now : ℕ) (m : HashMap MemberEntry) → IsMap m → IsMap (reap now m).1
unfolding reap
reap-IsMap now [] i = tt
reap-IsMap now ((id, e) ∷ m) i = ground (arith, reap-IsMap now m i.1, lookup-reap now m id)

-- A reaped map has the order that it had.
reap-ordered :
    (now : ℕ) (m : HashMap MemberEntry) → IsMap m → sorted_ids m ≡ sorted_ids (reap now m).1
reap-ordered now m i =
    sorted_ids_ext m (reap now m).1 i (reap-IsMap now m i) λ k. ground (arith, lookup-reap now m k)

module _ (inner : Inner) (now : ℕ) where
  reap_suspects-by_id : (reap_suspects inner now).1.by_id ≡ (reap now inner.by_id).1
  unfolding reap_suspects re_sort
  reap_suspects-by_id = ground arith

  reap_suspects-announced :
      IsValid inner
      → (k : ℕ)
      → contains k (announced (reap_suspects inner now).0) ≡ due? now (lookup k inner.by_id)
  unfolding reap_suspects
  reap_suspects-announced v k = contains-reap now inner.by_id v.keys v.ids k

  reap_suspects-sorted :
      IsValid inner → (reap_suspects inner now).1.sorted ≡ sorted_ids (reap now inner.by_id).1
  unfolding reap_suspects re_sort
  reap_suspects-sorted v = ground (arith, v.ordered, reap-ordered now inner.by_id v.keys)

  reap_suspects-local :
      ((reap_suspects inner now).1.local_id ≡ inner.local_id)
      × ((reap_suspects inner now).1.local_incarnation ≡ inner.local_incarnation)
  unfolding reap_suspects re_sort
  reap_suspects-local = ground arith

  lookup-reaped :
      (k : ℕ) → lookup k (reap_suspects inner now).1.by_id ≡ reaped now (lookup k inner.by_id)
  lookup-reaped k = rw reap_suspects-by_id (lookup-reap now inner.by_id k)

  -- On a valid view, reaping at a time declares dead, and announces, the suspects whose deadline
  -- is at that time or before, and it neither changes nor announces any other member.
  pub lookup-reap_suspects :
      IsValid inner
      → (k : ℕ)
      → Reaped now
          (lookup k inner.by_id)
          (lookup k (reap_suspects inner now).1.by_id)
          (contains k (announced (reap_suspects inner now).0))
  lookup-reap_suspects v k =
      rw (lookup-reaped k, reap_suspects-announced v k) (reaped-Reaped now (lookup k inner.by_id))

  -- Reaping leaves a valid view: the local member is never declared dead.
  pub reap_suspects-IsValid : IsValid inner → IsValid (reap_suspects inner now).1
  reap_suspects-IsValid v = record {
    keys = subst IsMap (sym reap_suspects-by_id) (reap-IsMap now inner.by_id v.keys);
    ids = λ k e p. elim (Option-cases (lookup k inner.by_id)) [
      | inl unknown ↦ absurd (ground (arith, lookup-reaped k))
      | inr (x, known) ↦ ground (arith, lookup-reaped k, v.ids k x)
    ];
    ordered = reap_suspects-sorted v ∙ ap sorted_ids (sym reap_suspects-by_id);
    local = λ l p.
        let (e, at, state, inc) = v.local l (sym reap_suspects-local.0 ∙ p) in
        (e, ground (arith, lookup-reaped l), state, inc ∙ sym reap_suspects-local.1);
  }

abbrev old? : ℕ → ℕ → Option MemberEntry → Bool
old? older now none = false
old? older now (some e) = is_old older now e

contains-old_ids :
    (older now : ℕ) (m : HashMap MemberEntry)
    → IsMap m
    → ((k : ℕ) (e : MemberEntry) → lookup k m ≡ some e → e.member.id ≡ k)
    → (k : ℕ) → contains k (old_ids older now m) ≡ old? older now (lookup k m)
unfolding old_ids contains lookup
contains-old_ids older now [] i h k = refl
contains-old_ids older now ((id, e) ∷ m) i h k =
    ground (arith, h id e, contains-old_ids older now m i.1 (λ j x p. h j x (ground arith)) k)

lookup-remove_all :
    (ids : List ℕ) (m : HashMap MemberEntry) (k : ℕ)
    → lookup k (remove_all ids m) ≡ (if contains k ids then none else lookup k m)
unfolding remove_all contains
lookup-remove_all [] m k = refl
lookup-remove_all (id ∷ ids) m k =
    ground (arith, lookup-remove_all ids (remove id m) k, lookup-remove id k m)

remove_all-IsMap : (ids : List ℕ) (m : HashMap MemberEntry) → IsMap m → IsMap (remove_all ids m)
unfolding remove_all
remove_all-IsMap [] m i = i
remove_all-IsMap (id ∷ ids) m i = remove_all-IsMap ids (remove id m) (remove-IsMap id m i)

module _ (inner : Inner) (older now : ℕ) where
  abbrev kept : HashMap MemberEntry
  kept = remove_all (old_ids older now inner.by_id) inner.by_id

  evict-by_id : (evict_tombstones inner older now).by_id ≡ kept
  unfolding evict_tombstones re_sort
  evict-by_id = ground arith

  evict-local :
      ((evict_tombstones inner older now).local_id ≡ inner.local_id)
      × ((evict_tombstones inner older now).local_incarnation ≡ inner.local_incarnation)
  unfolding evict_tombstones re_sort
  evict-local = ground arith

  evict-sorted : IsValid inner → (evict_tombstones inner older now).sorted ≡ sorted_ids kept
  unfolding evict_tombstones re_sort remove_all
  evict-sorted v = ground (arith, v.ordered)

  lookup-evicted :
      IsValid inner
      → (k : ℕ)
      → lookup k (evict_tombstones inner older now).by_id ≡ evicted older now (lookup k inner.by_id)
  lookup-evicted v k = rw evict-by_id (
      ground (
        arith,
        lookup-remove_all (old_ids older now inner.by_id) inner.by_id k,
        contains-old_ids older now inner.by_id v.keys v.ids k,
      ))

  -- On a valid view, evicting drops the dead members whose deadline is not 0 and lies back by the
  -- given age or more, where a deadline to come lies back by 0, and it changes no other member.
  pub lookup-evict_tombstones :
      IsValid inner
      → (k : ℕ)
      → Evicted older now (lookup k inner.by_id) (lookup k (evict_tombstones inner older now).by_id)
  lookup-evict_tombstones v k =
      rw (lookup-evicted v k) (evicted-Evicted older now (lookup k inner.by_id))

  -- Evicting leaves a valid view: the local member is never dropped.
  pub evict_tombstones-IsValid : IsValid inner → IsValid (evict_tombstones inner older now)
  evict_tombstones-IsValid v = record {
    keys =
        subst IsMap (sym evict-by_id)
          (remove_all-IsMap (old_ids older now inner.by_id) inner.by_id v.keys);
    ids = λ k e p. v.ids k e (ground (arith, lookup-evicted v k));
    ordered = evict-sorted v ∙ ap sorted_ids (sym evict-by_id);
    local = λ l p.
        let (e, at, state, inc) = v.local l (sym evict-local.0 ∙ p) in
        (e, ground (arith, lookup-evicted v l), state, inc ∙ sym evict-local.1);
  }

-- What a declared death leaves has no deadline.
apply_dead-tombstone :
    (inner : Inner) (id inc : ℕ)
    → (apply_dead inner id inc).0 ≡ updated
    → (e : MemberEntry) × (e.state ≡ is_dead)
      × (e.suspect_deadline_ns ≡ 0)
      × (lookup id (apply_dead inner id inc).1.by_id ≡ some e)
unfolding apply_dead re_sort
apply_dead-tombstone inner id inc done = elim (Option-cases (lookup id inner.by_id)) [
  | inl unknown ↦ absurd (ground arith)
  | inr (x, known) ↦
      let e' : MemberEntry = record x {
        state = is_dead;
        incarnation = inc;
        suspect_deadline_ns = 0;
      } in
      (e', refl, refl, ground (arith, lookup-insert id id e' inner.by_id))
]

-- On a valid view, a member that gossip has just declared dead is not evicted, however old its
-- tombstone is.
pub evict-apply_dead :
    (inner : Inner) (id inc older now : ℕ)
    → IsValid inner
    → (apply_dead inner id inc).0 ≡ updated
    → (e : MemberEntry) × (e.state ≡ is_dead)
      × (lookup id (apply_dead inner id inc).1.by_id ≡ some e)
      × (lookup id (evict_tombstones (apply_dead inner id inc).1 older now).by_id ≡ some e)
evict-apply_dead inner id inc older now v done =
    let (e, state, deadline, found) = apply_dead-tombstone inner id inc done in
    (
      e,
      state,
      found,
      ground (
        arith,
        lookup-evicted (apply_dead inner id inc).1 older now (apply_dead-IsValid inner id inc v) id,
      ),
    )
