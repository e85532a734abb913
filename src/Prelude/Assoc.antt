-- ===== src/Prelude/Assoc.antt =====
-- A hash map with number keys as an association list in which a key stands once.
-- The order of the entries is not observed by the program.
use Prim.Native.Nat.{ℕ, ◌+◌}
use mathlib.Core.Path.{◌≡◌, refl, sym, ap₂}
use mathlib.Core.Logic.{inl, inr}
use mathlib.Core.Option.{Option, none, some}
use mathlib.Core.List.{List, [], ◌∷◌}
use native.Mathlib.Omega.{arith}
use kamino.Prelude.Lists.{length}
use kamino.Prelude.Tests.{◌==◌, if◌then◌else◌, Option-cases}

abbrev pub HashMap {ℓ} : Type ℓ → Type ℓ
HashMap V = List (ℕ × V)

module _ {ℓ} {V : Type ℓ} where
  unfoldable pub lookup : ℕ → HashMap V → Option V
  lookup k [] = none
  lookup k ((j, v) ∷ m) = if j == k then some v else lookup k m

  unfoldable pub remove : ℕ → HashMap V → HashMap V
  remove k [] = []
  remove k ((j, v) ∷ m) = let rest = remove k m in if j == k then rest else (j, v) ∷ rest

  unfoldable pub insert : ℕ → V → HashMap V → HashMap V
  unfolding remove
  insert k v m = (k, v) ∷ remove k m

  pub lookup-remove :
      (k j : ℕ) (m : HashMap V) → lookup j (remove k m) ≡ (if k == j then none else lookup j m)
  unfolding lookup remove
  lookup-remove k j [] = ground arith
  lookup-remove k j ((i, v) ∷ m) = ground (arith, lookup-remove k j m)

  pub lookup-insert :
      (k j : ℕ) (v : V) (m : HashMap V)
      → lookup j (insert k v m) ≡ (if k == j then some v else lookup j m)
  unfolding lookup insert
  lookup-insert k j v m = ground (arith, lookup-remove k j m)

  pub remove_absent : (k : ℕ) (m : HashMap V) → lookup k m ≡ none → remove k m ≡ m
  unfolding lookup remove
  remove_absent k [] h = refl
  remove_absent k ((j, v) ∷ m) h = ground (arith, remove_absent k m)

  -- No key stands twice.
  abbrev pub IsMap : HashMap V → Type ℓ
  IsMap [] = Unit
  IsMap ((k, v) ∷ m) = (lookup k m ≡ none) × IsMap m

  pub remove-IsMap : (k : ℕ) (m : HashMap V) → IsMap m → IsMap (remove k m)
  unfolding remove
  remove-IsMap k [] h = h
  remove-IsMap k ((j, v) ∷ m) h = ground (arith, remove-IsMap k m h.1, lookup-remove k j m)

  pub insert-IsMap : (k : ℕ) (v : V) (m : HashMap V) → IsMap m → IsMap (insert k v m)
  unfolding insert
  insert-IsMap k v m h = ground (arith, remove-IsMap k m h, lookup-remove k k m)

  -- The sum of a weight over the values.
  unfoldable pub total : (V → ℕ) → HashMap V → ℕ
  total w [] = 0
  total w ((k, v) ∷ m) = w v + total w m

  pub total-remove :
      (w : V → ℕ) (k : ℕ) (v : V) (m : HashMap V)
      → IsMap m
      → lookup k m ≡ some v
      → total w (remove k m) + w v ≡ total w m
  unfolding total lookup remove
  total-remove w k v [] i h = cc
  total-remove w k v ((j, u) ∷ m) i h = ground (arith, total-remove w k v m i.1, remove_absent k m)

  -- Two weights that agree on the values of the map have one total.
  pub total_congr :
      (w u : V → ℕ) (m : HashMap V)
      → IsMap m
      → ((k : ℕ) (v : V) → lookup k m ≡ some v → w v ≡ u v)
      → total w m ≡ total u m
  unfolding total lookup
  total_congr w u [] i h = refl
  total_congr w u ((j, v) ∷ m) i h =
      ap₂ ◌+◌ (h j v (ground arith)) (total_congr w u m i.1 λ k x e. h k x (ground arith))

  pub length-total : (m : HashMap V) → length m ≡ total (λ _. 1) m
  unfolding total
  length-total [] = refl
  length-total ((k, v) ∷ m) = omega (arith, length-total m)

  abbrev pub weight : (V → ℕ) → Option V → ℕ
  weight w none = 0
  weight w (some v) = w v

  pub total-remove-weight :
      (w : V → ℕ) (k : ℕ) (m : HashMap V)
      → IsMap m
      → total w (remove k m) + weight w (lookup k m) ≡ total w m
  total-remove-weight w k m i = elim (Option-cases (lookup k m)) [
    | inl missing ↦ rw (missing, remove_absent k m missing) (omega arith)
    | inr (v, live) ↦ rw live (total-remove w k v m i live)
  ]

  pub total-eq-zero :
      (w : V → ℕ) (m : HashMap V) → IsMap m → ((k : ℕ) → weight w (lookup k m) ≡ 0) → total w m ≡ 0
  unfolding total lookup
  total-eq-zero w [] i h = refl
  total-eq-zero w ((k, v) ∷ m) i h =
      ground (arith, h k, total-eq-zero w m i.1 λ j. ground (arith, h j))

-- Two maps that weigh the same at every key have one total.
pub total_ext {ℓ κ} :
    {V : Type ℓ} {U : Type κ} (w : V → ℕ) (u : U → ℕ) (m : HashMap V) (n : HashMap U)
    → IsMap m
    → IsMap n
    → ((k : ℕ) → weight w (lookup k m) ≡ weight u (lookup k n))
    → total w m ≡ total u n
unfolding total lookup
total_ext w u [] n i i' h = sym (total-eq-zero u n i' λ k. sym (h k))
total_ext w u ((k, v) ∷ m) n i i' h = ground (
  arith,
  h k,
  total-remove-weight u k n i',
  total_ext w u m (remove k n) i.1 (remove-IsMap k n i')
      λ j. ground (arith, h j, lookup-remove k j n),
)

pub ruleset map_laws = (lookup-remove, lookup-insert)
