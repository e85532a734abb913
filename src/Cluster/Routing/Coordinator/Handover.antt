-- ===== src/Cluster/Routing/Coordinator/Handover.antt =====
-- What a coordinator stores for a table that it built: the owners that it keeps, in
-- `preserve_previous_owners` of crates/kamino-cluster/src/routing/coordinator.rs.
use kamino.Prelude.{
  ℕ, ◌≡◌, refl, true, false, not, ◌||◌, ◌&&◌, List, [], ◌∷◌, Option, none, some, arith, ◌==◌,
  HashMap, lookup, contains, inl, inr, Option-cases, AllDistinct, ◌≢◌, Bool-cases, subst, sym,
}
use kamino.Cluster.Message.{Member}
use kamino.Cluster.Routing.Table.{RoutingTable, first}
use kamino.Cluster.Routing.Coordinator.{
  ids, append_ancestors, splice, splice_all, preserve_previous_owners,
}
use kamino.Cluster.Routing.Coordinator.Owners.{
  append_ancestors-AllDistinct, first-append_ancestors, contains-append_ancestors,
  lookup-splice_all,
}

-- The owners of a partition before a rebuild, those that were built, and those that are stored.
pub data Succeeds (live : List ℕ) : Option (List Member) → List Member → List Member → Type 0 where
  unassigned : (owners : List Member) → Succeeds live none owners owners
  unowned : (owners : List Member) → Succeeds live (some []) owners owners
  emptied : (q : Member) (more : List Member) → Succeeds live (some (q ∷ more)) [] []
  stays :
      (q p : Member) (more owners : List Member)
      → q.id ≡ p.id
      → Succeeds live (some (q ∷ more)) (p ∷ owners) (p ∷ owners)
  lost :
      (q p : Member) (more owners : List Member)
      → contains q.id live ≡ false
      → Succeeds live (some (q ∷ more)) (p ∷ owners) (p ∷ owners)
  moves :
      (q p : Member) (more owners stored : List Member)
      → q.id ≢ p.id
      → contains q.id live ≡ true
      → first stored ≡ some p
      → ((z : ℕ)
          → contains z (ids stored) ≡ (
              contains z (ids (p ∷ owners))
              || (contains z (ids (q ∷ more)) && contains z live && not (z == p.id))))
      → (AllDistinct (ids (p ∷ owners)) → AllDistinct (ids stored))
      → Succeeds live (some (q ∷ more)) (p ∷ owners) stored

splice-moves :
    (live : List ℕ) (q p : Member) (more owners : List Member)
    → (q.id == p.id) ≡ false
    → contains q.id live ≡ true
    → splice live (some (q ∷ more)) (p ∷ owners)
      ≡ append_ancestors p.id live (p ∷ owners) (q ∷ more)
unfolding splice
splice-moves live q p more owners moved lives = rw (moved, lives) refl

splice-Succeeds :
    (live : List ℕ) (prev : Option (List Member)) (owners : List Member)
    → Succeeds live prev owners (splice live prev owners)
unfolding splice
splice-Succeeds live none owners = unassigned owners
splice-Succeeds live (some []) owners = unowned owners
splice-Succeeds live (some (q ∷ more)) [] = emptied q more
splice-Succeeds live (some (q ∷ more)) (p ∷ owners) = elim (Bool-cases (q.id == p.id)) [
  | inl same ↦ rw same (stays q p more owners (ground arith))
  | inr other ↦ elim (Bool-cases (contains q.id live)) [
    | inr gone ↦ rw (other, gone) (lost q p more owners gone)
    | inl lives ↦
        subst (Succeeds live (some (q ∷ more)) (p ∷ owners))
          (sym (splice-moves live q p more owners other lives))
          (moves q p more owners (append_ancestors p.id live (p ∷ owners) (q ∷ more)) (ground arith)
            lives (first-append_ancestors p.id live p owners (q ∷ more))
            (contains-append_ancestors p.id live (p ∷ owners) (q ∷ more))
            (append_ancestors-AllDistinct p.id live (p ∷ owners) (q ∷ more)))
  ]
]

-- The owners of a partition in a table, where both are there.
abbrev pub previous : Option RoutingTable → ℕ → Option (List Member)
previous none part = none
previous (some prev) part = lookup part prev.primary

-- What is stored of a partition, where the built table has it.
pub data Stored (live : List ℕ) (prev : Option (List Member))
    : Option (List Member) → Option (List Member) → Type 0 where
  no_partition : Stored live prev none none
  partition :
      (built stored : List Member)
      → Succeeds live prev built stored
      → Stored live prev (some built) (some stored)

-- The table that is stored for a built one: its owners are handed over, and nothing else is
-- changed.
pub record Inherits (prev : Option RoutingTable) (live : List Member) (built stored : RoutingTable)
    : Type 0 where
  pub same_schema : stored.schema_version ≡ built.schema_version
  pub same_signature : stored.signature ≡ built.signature
  pub same_members : stored.members ≡ built.members
  pub same_backup : stored.backup ≡ built.backup
  pub owners :
      (part : ℕ)
      → Stored
          (ids live)
          (previous prev part)
          (lookup part built.primary)
          (lookup part stored.primary)

spliced-Stored :
    (live : List ℕ) (prev : HashMap (List Member)) (new : HashMap (List Member)) (part : ℕ)
    → Stored live (lookup part prev) (lookup part new) (lookup part (splice_all prev live new))
spliced-Stored live prev new part = elim (Option-cases (lookup part new)) [
  | inl unknown ↦ rw (lookup-splice_all prev live new part, unknown) no_partition
  | inr (owners, known) ↦
      rw (lookup-splice_all prev live new part, known)
        (partition owners (splice live (lookup part prev) owners)
          (splice-Succeeds live (lookup part prev) owners))
]

built-Stored : (live : List ℕ) (new : Option (List Member)) → Stored live none new new
built-Stored live none = no_partition
built-Stored live (some owners) = partition owners owners (unassigned owners)

pub preserve_previous_owners-Inherits :
    (new prev : RoutingTable) (live : List Member)
    → Inherits (some prev) live new (preserve_previous_owners new prev live)
unfolding preserve_previous_owners
preserve_previous_owners-Inherits new prev live = record {
  same_schema = refl;
  same_signature = refl;
  same_members = refl;
  same_backup = refl;
  owners = spliced-Stored (ids live) prev.primary new.primary;
}

pub built-Inherits : (built : RoutingTable) (live : List Member) → Inherits none live built built
built-Inherits built live = record {
  same_schema = refl;
  same_signature = refl;
  same_members = refl;
  same_backup = refl;
  owners = λ part. built-Stored (ids live) (lookup part built.primary);
}
