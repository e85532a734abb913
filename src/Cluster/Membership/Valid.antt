-- ===== src/Cluster/Membership/Valid.antt =====
-- What every method of the membership view keeps.
use kamino.Prelude.{
  ℕ, ◌+◌, ◌%◌, ◌^◌, ◌≡◌, refl, sym, ◌∙◌, false, List, some, arith, lookup, insert, IsMap, ◌⊎◌, inl,
  inr, Option-cases, Bool-cases, lookup-insert, insert-IsMap, subst,
}
use kamino.Prelude.Sort.{sort, insert_sorted}
use kamino.Prelude.Sort
use kamino.Cluster.Message.{SocketAddr, Member, GossipEvent, alive, suspect, dead, leave}
use kamino.Cluster.Membership.{
  is_alive, is_suspect, is_dead, MemberEntry, Inner, sorted_ids, re_sort, bootstrap, is_local,
  saturating_add, apply_alive, apply_suspect, apply_dead, apply, bump_local_incarnation,
}
use kamino.Cluster.Membership.Order.{birthdate?, sorted_ids_ext}

-- The local member is alive at the local incarnation, the ids are those of the map in the order of
-- the birthdates, and an entry stands under its id.
pub record IsValid (inner : Inner) : Type 0 where
  pub keys : IsMap inner.by_id
  pub ids : (k : ℕ) (e : MemberEntry) → lookup k inner.by_id ≡ some e → e.member.id ≡ k
  pub ordered : inner.sorted ≡ sorted_ids inner.by_id
  pub local :
      (l : ℕ)
      → inner.local_id ≡ some l
      → (e : MemberEntry) × (lookup l inner.by_id ≡ some e)
        × (e.state ≡ is_alive)
        × (e.incarnation ≡ inner.local_incarnation)

pub bootstrap-IsValid : (m : Member) → IsValid (bootstrap m)
unfolding bootstrap sorted_ids lookup sort Sort.keys insert_sorted
bootstrap-IsValid m = record {
  keys = ground arith;
  ids = λ k e p. ground arith;
  ordered = refl;
  local = λ l p. (
    record { member = m; state = is_alive; incarnation = 1; suspect_deadline_ns = 0 },
    ground arith,
    refl,
    refl,
  );
}

module _ (inner : Inner) (v : IsValid inner) (id : ℕ) (e : MemberEntry) (own : e.member.id ≡ id)
    (remote : is_local inner id ≡ false) where
  -- Another member's entry replaced, and the ids sorted again.
  pub inserted-IsValid : IsValid (re_sort (record inner { by_id = insert id e inner.by_id }))
  unfolding re_sort
  inserted-IsValid = record {
    keys = insert-IsMap id e inner.by_id v.keys;
    ids = λ k x p. ground (arith, lookup-insert id k e inner.by_id, v.ids k x);
    ordered = refl;
    local = λ l p.
        let (x, at, state, inc) = v.local l p in
        (x, ground (arith, lookup-insert id l e inner.by_id), state, inc);
  }

  -- Without the sort, where the birthdate stays.
  pub replaced-IsValid :
      birthdate? (lookup id inner.by_id) ≡ some e.member.birthdate
      → IsValid (record inner { by_id = insert id e inner.by_id })
  replaced-IsValid same = record {
    keys = insert-IsMap id e inner.by_id v.keys;
    ids = λ k x p. ground (arith, lookup-insert id k e inner.by_id, v.ids k x);
    ordered =
        v.ordered
        ∙ sorted_ids_ext inner.by_id (insert id e inner.by_id) v.keys
            (insert-IsMap id e inner.by_id v.keys)
            λ k. ground (arith, lookup-insert id k e inner.by_id);
    local = λ l p.
        let (x, at, state, inc) = v.local l p in
        (x, ground (arith, lookup-insert id l e inner.by_id), state, inc);
  }

abbrev pub alive_entry : ℕ → List ℕ → SocketAddr → SocketAddr → ℕ → ℕ → MemberEntry
alive_entry id name addr discovery_addr birthdate incarnation = record {
  member = record {
    id = id;
    name = name;
    addr = addr;
    discovery_addr = discovery_addr;
    birthdate = birthdate;
    is_coordinator = false;
  };
  state = is_alive;
  incarnation = incarnation;
  suspect_deadline_ns = 0;
}

-- A method that leaves the view as it was or changes it to a valid one.
either-IsValid :
    {after before changed : Inner}
    → IsValid before
    → IsValid changed
    → (after ≡ before) ⊎ (after ≡ changed)
    → IsValid after
either-IsValid v v' (inl same) = subst IsValid (sym same) v
either-IsValid v v' (inr new) = subst IsValid (sym new) v'

apply_alive-IsValid :
    (inner : Inner) (id : ℕ) (name : List ℕ) (addr discovery_addr : SocketAddr) (birthdate inc : ℕ)
    → IsValid inner
    → IsValid (apply_alive inner id name addr discovery_addr birthdate inc).1
unfolding apply_alive re_sort
apply_alive-IsValid inner id name addr discovery_addr birthdate inc v =
    elim (Bool-cases (is_local inner id)) [
      | inl own ↦ either-IsValid v v (ground arith)
      | inr remote ↦
          either-IsValid v
            (inserted-IsValid inner v id (alive_entry id name addr discovery_addr birthdate inc)
              refl remote)
            (ground arith)
    ]

apply_suspect-IsValid :
    (inner : Inner) (id inc now timeout : ℕ)
    → IsValid inner
    → IsValid (apply_suspect inner id inc now timeout).1
unfolding apply_suspect
apply_suspect-IsValid inner id inc now timeout v = elim (Option-cases (lookup id inner.by_id)) [
  | inl unknown ↦ either-IsValid v v (ground arith)
  | inr (e, known) ↦ elim (Bool-cases (is_local inner id)) [
    | inl own ↦ either-IsValid v v (ground arith)
    | inr remote ↦
        let e' : MemberEntry = record e {
          state = is_suspect;
          incarnation = inc;
          suspect_deadline_ns = saturating_add now timeout;
        } in
        either-IsValid v (replaced-IsValid inner v id e' (v.ids id e known) remote (rw known refl))
          (ground arith)
  ]
]

pub apply_dead-IsValid :
    (inner : Inner) (id inc : ℕ) → IsValid inner → IsValid (apply_dead inner id inc).1
unfolding apply_dead re_sort
apply_dead-IsValid inner id inc v = elim (Option-cases (lookup id inner.by_id)) [
  | inl unknown ↦ either-IsValid v v (ground arith)
  | inr (e, known) ↦ elim (Bool-cases (is_local inner id)) [
    | inl own ↦ either-IsValid v v (ground arith)
    | inr remote ↦
        let e' : MemberEntry = record e {
          state = is_dead;
          incarnation = inc;
          suspect_deadline_ns = 0;
        } in
        either-IsValid v (inserted-IsValid inner v id e' (v.ids id e known) remote) (ground arith)
  ]
]

-- Every gossip event leaves a valid view: the local member alive at the local incarnation, the ids
-- in the order of the birthdates.
pub apply-IsValid :
    (inner : Inner) (event : GossipEvent) (now timeout : ℕ)
    → IsValid inner
    → IsValid (apply inner event now timeout).1
unfolding apply
apply-IsValid inner (alive id name addr disc birthdate inc) now timeout v =
    apply_alive-IsValid inner id name addr disc birthdate inc v
apply-IsValid inner (suspect id inc from) now timeout v =
    apply_suspect-IsValid inner id inc now timeout v
apply-IsValid inner (dead id inc from) now timeout v = apply_dead-IsValid inner id inc v
apply-IsValid inner (leave id inc) now timeout v = apply_dead-IsValid inner id inc v

-- Bumping the local incarnation leaves a valid view.
pub bump_local_incarnation-IsValid :
    (inner : Inner) → IsValid inner → IsValid (bump_local_incarnation inner).1
unfolding bump_local_incarnation
bump_local_incarnation-IsValid inner v = elim (Option-cases inner.local_id) [
  | inl nobody ↦ rw nobody (record {
    keys = v.keys;
    ids = v.ids;
    ordered = v.ordered;
    local = λ l p. absurd (ground arith);
  })
  | inr (own, is_own) ↦
      let (e, at, state, inc) = v.local own is_own in
      let e' : MemberEntry = record e {
        incarnation = (inner.local_incarnation + 1) % 2 ^ 64;
        state = is_alive;
        suspect_deadline_ns = 0;
      } in
      rw (is_own, at)
        (record {
          keys = insert-IsMap own e' inner.by_id v.keys;
          ids = λ k x p. ground (arith, lookup-insert own k e' inner.by_id, v.ids k x, v.ids own e);
          ordered =
              v.ordered
              ∙ sorted_ids_ext inner.by_id (insert own e' inner.by_id) v.keys
                  (insert-IsMap own e' inner.by_id v.keys)
                  λ k. ground (arith, lookup-insert own k e' inner.by_id);
          local = λ l p. (e', ground (arith, lookup-insert own l e' inner.by_id), refl, refl);
        })
]
