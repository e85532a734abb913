-- ===== src/Cluster/Routing/Store.antt =====
-- crates/kamino-cluster/src/routing/store.rs: the newest routing table that was seen.
use kamino.Prelude.{
  ℕ, ◌≡◌, ◌≢◌, refl, ap, ◌∙◌, Bool, true, false, List, [], ◌∷◌, Option, none, some, arith, leb,
  if◌then◌else◌, max,
}
use kamino.Cluster.Routing.Table.{RoutingTable}

pub data ApplyRoutingOutcome : Type 0 where
  accepted stale unsupported_schema : ApplyRoutingOutcome

abbrev pub RoutingTableStore : Type 0
RoutingTableStore = Option RoutingTable

abbrev pub empty : RoutingTableStore
empty = none

unfoldable pub apply : RoutingTableStore → RoutingTable → ApplyRoutingOutcome × RoutingTableStore
apply none candidate = (accepted, some candidate)
apply (some current) candidate =
    if leb candidate.signature current.signature
    then (stale, some current)
    else (accepted, some candidate)

unfoldable pub signature : RoutingTableStore → ℕ
signature none = 0
signature (some rt) = rt.signature

unfoldable pub is_populated : RoutingTableStore → Bool
is_populated none = false
is_populated (some _) = true

-- The store after a sequence of candidates.
unfoldable pub apply_all : RoutingTableStore → List RoutingTable → RoutingTableStore
apply_all s [] = s
apply_all s (rt ∷ rts) = apply_all (apply s rt).1 rts

-- The largest signature of the candidates and of the store.
abbrev pub newest : ℕ → List RoutingTable → ℕ
newest n [] = n
newest n (rt ∷ rts) = newest (max n rt.signature) rts

pub signature-apply :
    (s : RoutingTableStore) (rt : RoutingTable)
    → signature (apply s rt).1 ≡ max (signature s) rt.signature
unfolding apply signature
signature-apply none rt = omega arith
signature-apply (some cur) rt = ground arith

-- However the candidate tables arrive, the store ends with the largest signature among them and
-- its own.
pub signature-apply_all :
    (s : RoutingTableStore) (rts : List RoutingTable)
    → signature (apply_all s rts) ≡ newest (signature s) rts
unfolding apply_all
signature-apply_all s [] = refl
signature-apply_all s (rt ∷ rts) =
    signature-apply_all (apply s rt).1 rts ∙ ap (λ n. newest n rts) (signature-apply s rt)

-- Two tables with different signatures leave the store with the same table whichever comes first,
-- and no candidate is refused for its schema version.
pub apply-apply :
    (s : RoutingTableStore) (a b : RoutingTable)
    → a.signature ≢ b.signature
    → ((apply (apply s a).1 b).1 ≡ (apply (apply s b).1 a).1) × ((apply s a).0 ≢ unsupported_schema)
unfolding apply
apply-apply none a b h = ground arith
apply-apply (some cur) a b h = ground arith
