-- ===== src/Cluster/Routing/Coordinator/Owners.antt =====
-- `preserve_previous_owners` of crates/kamino-cluster/src/routing/coordinator.rs.
use kamino.Prelude.{
  ℕ, ◌≡◌, refl, true, false, not, ◌||◌, ◌&&◌, List, [], ◌∷◌, ◌++◌, Option, none, some, arith, ◌==◌,
  HashMap, lookup, contains, inl, inr, Option-cases, AllDistinct,
}
use kamino.Cluster.Message.{Member}
use kamino.Cluster.Routing.Table.{RoutingTable, first, primary_for}
use kamino.Cluster.Routing.Coordinator.{
  ids, append_ancestors, splice, splice_all, preserve_previous_owners,
}

contains-ids-append :
    (ms : List Member) (m : Member) (z : ℕ)
    → contains z (ids (ms ++ m ∷ [])) ≡ (contains z (ids ms) || (m.id == z))
unfolding contains
contains-ids-append [] m z = ground arith
contains-ids-append (x ∷ ms) m z = ground (arith, contains-ids-append ms m z)

append-AllDistinct :
    (ms : List Member) (m : Member)
    → contains m.id (ids ms) ≡ false
    → AllDistinct (ids ms)
    → AllDistinct (ids (ms ++ m ∷ []))
unfolding contains
append-AllDistinct [] m h d = (refl, tt)
append-AllDistinct (x ∷ ms) m h d =
    (ground (arith, contains-ids-append ms m x.id), append-AllDistinct ms m (ground arith) d.1)

module _ (p : ℕ) (live : List ℕ) where
  pub append_ancestors-AllDistinct :
      (owners prev : List Member)
      → AllDistinct (ids owners)
      → AllDistinct (ids (append_ancestors p live owners prev))
  unfolding append_ancestors
  append_ancestors-AllDistinct owners [] d = d
  append_ancestors-AllDistinct owners (a ∷ prev) d = ground (
    arith,
    append_ancestors-AllDistinct owners prev d,
    append-AllDistinct owners a,
    append_ancestors-AllDistinct (owners ++ a ∷ []) prev,
  )

  pub first-append_ancestors :
      (o : Member) (owners prev : List Member)
      → first (append_ancestors p live (o ∷ owners) prev) ≡ some o
  unfolding append_ancestors
  first-append_ancestors o owners [] = refl
  first-append_ancestors o owners (a ∷ prev) = ground (
    arith,
    first-append_ancestors o owners prev,
    first-append_ancestors o (owners ++ a ∷ []) prev,
  )

  pub contains-append_ancestors :
      (owners prev : List Member) (z : ℕ)
      → contains z (ids (append_ancestors p live owners prev))
        ≡ (contains z (ids owners) || (contains z (ids prev) && contains z live && not (z == p)))
  unfolding append_ancestors contains
  contains-append_ancestors owners [] z = ground arith
  contains-append_ancestors owners (a ∷ prev) z = ground (
    arith,
    contains-append_ancestors owners prev z,
    contains-append_ancestors (owners ++ a ∷ []) prev z,
    contains-ids-append owners a z,
  )

pub lookup-splice_all :
    (prev : HashMap (List Member)) (live : List ℕ) (new : HashMap (List Member)) (part : ℕ)
    → lookup part (splice_all prev live new) ≡ elim (lookup part new) [
      | none ↦ none
      | some owners ↦ some (splice live (lookup part prev) owners)
    ]
unfolding lookup splice_all
lookup-splice_all prev live [] part = refl
lookup-splice_all prev live ((p, owners) ∷ new) part =
    ground (arith, lookup-splice_all prev live new part)

first-splice :
    (live : List ℕ) (prev : Option (List Member)) (owners : List Member)
    → first (splice live prev owners) ≡ first owners
unfolding splice
first-splice live none owners = refl
first-splice live (some []) owners = refl
first-splice live (some (q ∷ more)) [] = refl
first-splice live (some (q ∷ more)) (o ∷ owners) =
    ground (arith, first-append_ancestors o.id live o owners (q ∷ more))

-- Keeping the previous owners changes the primary of no partition.
pub primary_for-preserve_previous_owners :
    (new prev : RoutingTable) (live : List Member) (part : ℕ)
    → primary_for (preserve_previous_owners new prev live) part ≡ primary_for new part
unfolding primary_for preserve_previous_owners
primary_for-preserve_previous_owners new prev live part =
    elim (Option-cases (lookup part new.primary)) [
      | inl unknown ↦ ground (arith, lookup-splice_all prev.primary (ids live) new.primary part)
      | inr (owners, known) ↦ ground (
        arith,
        lookup-splice_all prev.primary (ids live) new.primary part,
        first-splice (ids live) (lookup part prev.primary) owners,
      )
    ]

-- A partition that gets a new primary, and whose previous primary lives, is owned by the new
-- primary and exactly the live ones of its previous owners, none of them twice.
pub splice_lem :
    (live : List Member) (new_primary prev_primary : Member) (more : List Member) (z : ℕ)
    → (prev_primary.id == new_primary.id) ≡ false
    → contains prev_primary.id (ids live) ≡ true
    → (contains z (ids (splice (ids live) (some (prev_primary ∷ more)) (new_primary ∷ []))) ≡ (
        (new_primary.id == z)
        || (contains z (ids (prev_primary ∷ more))
            && contains z (ids live)
            && not (z == new_primary.id))))
      × AllDistinct (ids (splice (ids live) (some (prev_primary ∷ more)) (new_primary ∷ [])))
unfolding splice contains
splice_lem live o q more z moved lives = (
  ground (arith, contains-append_ancestors o.id (ids live) (o ∷ []) (q ∷ more) z),
  ground (arith, append_ancestors-AllDistinct o.id (ids live) (o ∷ []) (q ∷ more) (refl, tt)),
)
