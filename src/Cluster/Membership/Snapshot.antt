-- ===== src/Cluster/Membership/Snapshot.antt =====
-- `snapshot` of crates/kamino-cluster/src/membership.rs.
use kamino.Prelude.{
  ℕ, suc, ◌≡◌, refl, sym, ap, ◌∙◌, Bool, false, not, ◌&&◌, List, [], ◌∷◌, Option, none, some, arith,
  HashMap, lookup, inl, inr, Option-cases, if◌then◌else◌, contains,
}
use kamino.Cluster.Message.{Member}
use kamino.Cluster.Membership.{
  is_dead, MemberEntry, Inner, dead?, snapshot_from, snapshot, sorted_ids,
}
use kamino.Cluster.Membership.Order.{contains-sorted_ids, sorted_ids_ext, birthdate?}
use kamino.Cluster.Membership.Valid.{IsValid}

abbrev pub live? : Option MemberEntry → Bool
live? none = false
live? (some e) = not (dead? e.state)

abbrev pub member_ids : List Member → List ℕ
member_ids [] = []
member_ids (m ∷ ms) = m.id ∷ member_ids ms

contains-snapshot_from :
    (m : HashMap MemberEntry)
    → ((k : ℕ) (e : MemberEntry) → lookup k m ≡ some e → e.member.id ≡ k)
    → (idx : ℕ) (ids : List ℕ) (k : ℕ)
    → contains k (member_ids (snapshot_from m idx ids)) ≡ (contains k ids && live? (lookup k m))
unfolding snapshot_from contains
contains-snapshot_from m h idx [] k = ground arith
contains-snapshot_from m h idx (id ∷ ids) k = elim (Option-cases (lookup id m)) [
  | inl unknown ↦ ground (arith, contains-snapshot_from m h (suc idx) ids k)
  | inr (e, known) ↦ ground (arith, contains-snapshot_from m h (suc idx) ids k, h id e known)
]

-- A snapshot of a valid view lists exactly the members that are known and not dead.
pub contains-snapshot :
    (inner : Inner) (k : ℕ)
    → IsValid inner
    → contains k (member_ids (snapshot inner)) ≡ live? (lookup k inner.by_id)
unfolding snapshot
contains-snapshot inner k v = rw v.ordered (
    ground (
      arith,
      contains-snapshot_from inner.by_id v.ids 0 (sorted_ids inner.by_id) k,
      contains-sorted_ids inner.by_id k,
    ))

snapshot_from_ext :
    (m n : HashMap MemberEntry)
    → ((k : ℕ) → lookup k m ≡ lookup k n)
    → (idx : ℕ) (ids : List ℕ) → snapshot_from m idx ids ≡ snapshot_from n idx ids
unfolding snapshot_from
snapshot_from_ext m n h idx [] = refl
snapshot_from_ext m n h idx (id ∷ ids) = ground (arith, h id, snapshot_from_ext m n h (suc idx) ids)

-- Two valid views that know the same of every member have the same snapshot, in whatever order
-- they learned it.
pub snapshot_ext :
    (a b : Inner)
    → IsValid a
    → IsValid b
    → ((k : ℕ) → lookup k a.by_id ≡ lookup k b.by_id)
    → snapshot a ≡ snapshot b
unfolding snapshot
snapshot_ext a b v w h =
    let same : a.sorted ≡ b.sorted =
      v.ordered
      ∙ sorted_ids_ext a.by_id b.by_id v.keys w.keys (λ k. ap birthdate? (h k))
      ∙ sym w.ordered in
    rw same (snapshot_from_ext a.by_id b.by_id h 0 b.sorted)

-- The members that a snapshot flags as coordinator.
abbrev pub flagged : List Member → List ℕ
flagged [] = []
flagged (m ∷ ms) = if m.is_coordinator then m.id ∷ flagged ms else flagged ms

none_flagged :
    (m : HashMap MemberEntry) (idx : ℕ) (ids : List ℕ)
    → flagged (snapshot_from m (suc idx) ids) ≡ []
unfolding snapshot_from
none_flagged m idx [] = refl
none_flagged m idx (id ∷ ids) = ground (arith, none_flagged m (suc idx) ids)

-- While the first of the sorted ids is that of a dead member, a snapshot flags no member as
-- coordinator.
pub snapshot-unflagged :
    (inner : Inner) (oldest : ℕ) (ids : List ℕ) (e : MemberEntry)
    → inner.sorted ≡ oldest ∷ ids
    → lookup oldest inner.by_id ≡ some e
    → e.state ≡ is_dead
    → flagged (snapshot inner) ≡ []
unfolding snapshot snapshot_from
snapshot-unflagged inner oldest ids e first known d =
    rw first (ground (arith, none_flagged inner.by_id 0 ids))
