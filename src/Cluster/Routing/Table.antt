-- ===== src/Cluster/Routing/Table.antt =====
-- crates/kamino-cluster/src/routing/table.rs: the routing table and its lookups.
use kamino.Prelude.{
  ℕ, ◌-◌, ◌%◌, ◌^◌, List, [], ◌∷◌, ◌++◌, Option, none, some, HashMap, lookup, length, min, ◌==◌,
  if◌then◌else◌,
}
use kamino.Cluster.Message.{Member}

abbrev pub routing_schema_version : ℕ
routing_schema_version = 1

pub record RoutingTable : Type 0 where
  pub schema_version : ℕ
  pub signature : ℕ
  pub members : List Member
  pub primary : HashMap (List Member)
  pub backup : HashMap (List Member)

abbrev pub first : List Member → Option Member
first [] = none
first (m ∷ ms) = some m

unfoldable pub primary_for : RoutingTable → ℕ → Option Member
primary_for rt partition_id = elim (lookup partition_id rt.primary) [
  | none ↦ none
  | some owners ↦ first owners
]

abbrev or_empty : Option (List Member) → List Member
or_empty none = []
or_empty (some ms) = ms

unfoldable pub owners_for : RoutingTable → ℕ → List Member
owners_for rt partition_id = or_empty (lookup partition_id rt.primary)

unfoldable pub backups_for : RoutingTable → ℕ → List Member
backups_for rt partition_id = or_empty (lookup partition_id rt.backup)

unfoldable pub partition_count : RoutingTable → ℕ
partition_count rt = min (length rt.primary) (2 ^ 32 - 1)

-- `hash64` is that of the hasher; a partition count of zero is a division by zero, which panics.
unfoldable pub partition_for : (List ℕ → ℕ) → List ℕ → List ℕ → ℕ → Option ℕ
partition_for hash64 dmap_name key partition_count =
    if partition_count == 0 then none else some (hash64 (dmap_name ++ key) % partition_count)
