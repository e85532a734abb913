-- ===== src/Cluster/Membership/Precedence.antt =====
-- Which of two claims about a member wins.
use kamino.Prelude.{
  ℕ, ◌<◌, ◌≡◌, ◌≢◌, ◌⊎◌, refl, Bool, true, false, not, ◌&&◌, ◌||◌, Option, none, some, arith,
  lookup, inl, inr, Bool-cases, if◌then◌else◌, ◌==◌, ltb, insert, lookup-insert,
}
use kamino.Cluster.Message.{GossipEvent, alive, suspect, dead, leave}
use kamino.Cluster.Membership.{
  MemberState, is_alive, is_suspect, is_dead, MemberEntry, Inner, ApplyOutcome, ignored, updated,
  is_local, dead?, alive?, suspect?, re_sort, saturating_add, apply_alive, apply_suspect,
  apply_dead, apply,
}
use kamino.Cluster.Membership.Valid.{alive_entry}

-- Whom an event is about, at which incarnation, and what it claims.
abbrev pub subject : GossipEvent → ℕ
subject (alive id _ _ _ _ _) = id
subject (suspect id _ _) = id
subject (dead id _ _) = id
subject (leave id _) = id

abbrev pub epoch : GossipEvent → ℕ
epoch (alive _ _ _ _ _ inc) = inc
epoch (suspect _ inc _) = inc
epoch (dead _ inc _) = inc
epoch (leave _ inc) = inc

abbrev pub claim : GossipEvent → MemberState
claim (alive _ _ _ _ _ _) = is_alive
claim (suspect _ _ _) = is_suspect
claim (dead _ _ _) = is_dead
claim (leave _ _) = is_dead

abbrev same_state : MemberState → MemberState → Bool
same_state is_alive s = alive? s
same_state is_suspect s = suspect? s
same_state is_dead s = dead? s

-- A claim wins when it is of a later incarnation, or of the same one and says something new of a
-- member that is not dead.
abbrev pub overrides : GossipEvent → MemberEntry → Bool
overrides ev e =
    ltb e.incarnation (epoch ev)
    || (epoch ev == e.incarnation && not (dead? e.state) && not (same_state (claim ev) e.state))

-- What an event leaves of a member that is known and is not the local one.
pub record IsMerged (inner : Inner) (ev : GossipEvent) (e : MemberEntry) (r : ApplyOutcome × Inner)
    : Type 0 where
  pub outcome : r.0 ≡ (if overrides ev e then updated else ignored)
  pub entry : MemberEntry
  pub found : lookup (subject ev) r.1.by_id ≡ some entry
  pub state : entry.state ≡ (if overrides ev e then claim ev else e.state)
  pub incarnation : entry.incarnation ≡ (if overrides ev e then epoch ev else e.incarnation)
  pub others : (j : ℕ) → subject ev ≢ j → lookup j r.1.by_id ≡ lookup j inner.by_id
  pub local_id : r.1.local_id ≡ inner.local_id

module _ (inner : Inner) (ev : GossipEvent) (e : MemberEntry) (r : ApplyOutcome × Inner)
    (k : lookup (subject ev) inner.by_id ≡ some e) where
  IsMerged-ignored : overrides ev e ≡ false → r ≡ (ignored, inner) → IsMerged inner ev e r
  IsMerged-ignored h p = record {
    outcome = ground arith;
    entry = e;
    found = rw p k;
    state = ground arith;
    incarnation = ground arith;
    others = λ j n. rw p refl;
    local_id = rw p refl;
  }

  IsMerged-updated :
      (e' : MemberEntry)
      → e'.state ≡ claim ev
      → e'.incarnation ≡ epoch ev
      → overrides ev e ≡ true
      → r.0 ≡ updated
      → r.1.by_id ≡ insert (subject ev) e' inner.by_id
      → r.1.local_id ≡ inner.local_id
      → IsMerged inner ev e r
  IsMerged-updated e' st inc h o p l = record {
    outcome = ground arith;
    entry = e';
    found = rw p (ground (arith, lookup-insert (subject ev) (subject ev) e' inner.by_id));
    state = ground arith;
    incarnation = ground arith;
    others = λ j n. rw p (ground (arith, lookup-insert (subject ev) j e' inner.by_id));
    local_id = l;
  }

module _ (inner : Inner) (e : MemberEntry) (now timeout : ℕ) where
  -- An event about a member that is known and is not the local one is applied exactly when its
  -- claim is of a later incarnation, or of the same one and says something new of a member that is
  -- not dead; then the member has the state and the incarnation of the claim, and no other member
  -- changes.
  pub apply-merges :
      (ev : GossipEvent)
      → is_local inner (subject ev) ≡ false
      → lookup (subject ev) inner.by_id ≡ some e
      → IsMerged inner ev e (apply inner ev now timeout)
  unfolding apply apply_alive apply_suspect apply_dead re_sort
  apply-merges (alive id name addr disc birthdate inc) r k =
      let ev = alive id name addr disc birthdate inc in
      elim (Bool-cases (overrides ev e)) [
        | inl wins ↦
            IsMerged-updated inner ev e _ k (alive_entry id name addr disc birthdate inc) refl refl
              wins (ground arith) (ground arith) (ground arith)
        | inr loses ↦ IsMerged-ignored inner ev e _ k loses (ground arith)
      ]
  apply-merges (suspect id inc from) r k =
      let ev = suspect id inc from in
      let e' : MemberEntry = record e {
        state = is_suspect;
        incarnation = inc;
        suspect_deadline_ns = saturating_add now timeout;
      } in
      elim (Bool-cases (overrides ev e)) [
        | inl wins ↦
            IsMerged-updated inner ev e _ k e' refl refl wins (ground arith) (ground arith)
              (ground arith)
        | inr loses ↦ IsMerged-ignored inner ev e _ k loses (ground arith)
      ]
  apply-merges (dead id inc from) r k =
      let ev = dead id inc from in
      let e' : MemberEntry = record e {
        state = is_dead;
        incarnation = inc;
        suspect_deadline_ns = 0;
      } in
      elim (Bool-cases (overrides ev e)) [
        | inl wins ↦
            IsMerged-updated inner ev e _ k e' refl refl wins (ground arith) (ground arith)
              (ground arith)
        | inr loses ↦ IsMerged-ignored inner ev e _ k loses (ground arith)
      ]
  apply-merges (leave id inc) r k =
      let ev = leave id inc in
      let e' : MemberEntry = record e {
        state = is_dead;
        incarnation = inc;
        suspect_deadline_ns = 0;
      } in
      elim (Bool-cases (overrides ev e)) [
        | inl wins ↦
            IsMerged-updated inner ev e _ k e' refl refl wins (ground arith) (ground arith)
              (ground arith)
        | inr loses ↦ IsMerged-ignored inner ev e _ k loses (ground arith)
      ]

-- The state and the incarnation that the view has of a member.
abbrev pub standing : ℕ → Inner → Option (MemberState × ℕ)
standing id inner = elim (lookup id inner.by_id) [
  | none ↦ none
  | some e ↦ some (e.state, e.incarnation)
]

-- Two events about one known remote member that differ in their incarnations leave the same state
-- and incarnation of it whichever of them comes first.
pub apply-commutes :
    (inner : Inner) (e : MemberEntry) (ev later : GossipEvent) (now now' timeout : ℕ)
    → subject ev ≡ subject later
    → is_local inner (subject ev) ≡ false
    → lookup (subject ev) inner.by_id ≡ some e
    → epoch ev < epoch later
    → standing (subject ev) (apply (apply inner ev now timeout).1 later now' timeout).1
      ≡ standing (subject ev) (apply (apply inner later now timeout).1 ev now' timeout).1
apply-commutes inner e ev later now now' timeout same r k lt =
    let r' : is_local inner (subject later) ≡ false = rw (← same) r in
    let k' : lookup (subject later) inner.by_id ≡ some e = rw (← same) k in
    let a = apply-merges inner e now timeout ev r k in
    let b = apply-merges inner e now timeout later r' k' in
    let ab =
      apply-merges (apply inner ev now timeout).1 a.entry now' timeout later
        (ground (arith, a.local_id)) (rw (← same) a.found) in
    let ba =
      apply-merges (apply inner later now timeout).1 b.entry now' timeout ev
        (ground (arith, b.local_id)) (rw same b.found) in
    ground (
      arith, a.state, a.incarnation, b.state, b.incarnation, ab.found, ab.state, ab.incarnation,
      ba.found, ba.state, ba.incarnation,
    )

-- No event about a known remote member takes its incarnation back, and a dead member stays dead
-- within its incarnation.
pub apply-advances :
    (inner : Inner) (e : MemberEntry) (ev : GossipEvent) (now timeout : ℕ)
    → is_local inner (subject ev) ≡ false
    → lookup (subject ev) inner.by_id ≡ some e
    → (e' : MemberEntry) × (lookup (subject ev) (apply inner ev now timeout).1.by_id ≡ some e')
      × ((e.incarnation < e'.incarnation)
          ⊎ ((e.incarnation ≡ e'.incarnation) × (e.state ≡ is_dead → e'.state ≡ is_dead)))
apply-advances inner e ev now timeout r k =
    let m = apply-merges inner e now timeout ev r k in
    (m.entry, m.found, ground (arith, m.state, m.incarnation))
