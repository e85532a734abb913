-- ===== src/Prelude/Sort.antt =====
-- Sorting numbers by a weight and then by themselves, as a comparison sort does.
use Prim.Native.Nat.{ℕ}
use mathlib.Core.Path.{◌≡◌, refl, ap}
use mathlib.Core.Logic.{inl, inr}
use mathlib.Core.Bool.{Bool, true, false, ◌||◌, ◌&&◌}
use mathlib.Core.Option.{Option, none, some}
use mathlib.Core.List.{List, [], ◌∷◌}
use native.Mathlib.Omega.{arith}
use kamino.Prelude.Tests.{ltb, ◌==◌, if◌then◌else◌, Bool-cases}
use kamino.Prelude.Offsets.{contains, AllDistinct}
use kamino.Prelude.Assoc.{HashMap, lookup, IsMap}

-- `a` comes before `b`: by the weight, and by the number where the weights are equal.
abbrev pub precedes : (ℕ → ℕ) → ℕ → ℕ → Bool
precedes w a b = ltb (w a) (w b) || (w a == w b && ltb a b)

module _ (w : ℕ → ℕ) where
  unfoldable pub insert_sorted : ℕ → List ℕ → List ℕ
  insert_sorted x [] = x ∷ []
  insert_sorted x (y ∷ ys) =
      let rest = insert_sorted x ys in if precedes w x y then x ∷ y ∷ ys else y ∷ rest

  unfoldable pub sort : List ℕ → List ℕ
  sort [] = []
  sort (x ∷ xs) = insert_sorted x (sort xs)

  pub contains-insert_sorted :
      (x z : ℕ) (ys : List ℕ)
      → contains z (insert_sorted x ys) ≡ (if x == z then true else contains z ys)
  unfolding contains insert_sorted
  contains-insert_sorted x z [] = ground arith
  contains-insert_sorted x z (y ∷ ys) = ground (arith, contains-insert_sorted x z ys)

  pub contains-sort : (z : ℕ) (xs : List ℕ) → contains z (sort xs) ≡ contains z xs
  unfolding contains sort
  contains-sort z [] = refl
  contains-sort z (x ∷ xs) =
      ground (arith, contains-insert_sorted x z (sort xs), contains-sort z xs)

  -- Every element precedes those behind it.
  abbrev pub IsAscending : List ℕ → Type 0
  IsAscending [] = Unit
  IsAscending (x ∷ xs) = ((y : ℕ) → contains y xs ≡ true → precedes w x y ≡ true) × IsAscending xs

  pub insert_sorted-IsAscending :
      (x : ℕ) (ys : List ℕ)
      → contains x ys ≡ false
      → IsAscending ys
      → IsAscending (insert_sorted x ys)
  unfolding insert_sorted contains
  insert_sorted-IsAscending x [] h a = ((λ y p. cc), tt)
  insert_sorted-IsAscending x (y ∷ ys) h a = elim (Bool-cases (precedes w x y)) [
    | inl first ↦ rw first ((λ z p. ground (arith, a.0 z)), a)
    | inr later ↦ rw later (
      (λ z p. ground (arith, contains-insert_sorted x z ys, a.0 z)),
      insert_sorted-IsAscending x ys (ground arith) a.1,
    )
  ]

  pub sort-IsAscending : (xs : List ℕ) → AllDistinct xs → IsAscending (sort xs)
  unfolding sort
  sort-IsAscending [] d = tt
  sort-IsAscending (x ∷ xs) d =
      insert_sorted-IsAscending x (sort xs) (ground (arith, contains-sort x xs))
        (sort-IsAscending xs d.1)

  -- An ascending list is determined by its elements.
  pub IsAscending-unique :
      (xs ys : List ℕ)
      → IsAscending xs
      → IsAscending ys
      → ((z : ℕ) → contains z xs ≡ contains z ys)
      → xs ≡ ys
  unfolding contains
  IsAscending-unique [] [] a b h = refl
  IsAscending-unique [] (y ∷ ys) a b h = absurd (ground (arith, h y))
  IsAscending-unique (x ∷ xs) [] a b h = absurd (ground (arith, h x))
  IsAscending-unique (x ∷ xs) (y ∷ ys) a b h =
      let same : x ≡ y = ground (arith, h x, h y, a.0 y, b.0 x) in
      rw same (ap (◌∷◌ y) (IsAscending-unique xs ys a.1 b.1 λ z. ground (arith, h z, a.0 z, b.0 z)))

module _ {ℓ} {V : Type ℓ} where
  unfoldable pub keys : HashMap V → List ℕ
  keys [] = []
  keys ((k, v) ∷ m) = k ∷ keys m

  abbrev pub is_some : Option V → Bool
  is_some none = false
  is_some (some _) = true

  pub contains-keys : (z : ℕ) (m : HashMap V) → contains z (keys m) ≡ is_some (lookup z m)
  unfolding contains keys lookup
  contains-keys z [] = refl
  contains-keys z ((k, v) ∷ m) = ground (arith, contains-keys z m)

  pub keys-AllDistinct : (m : HashMap V) → IsMap m → AllDistinct (keys m)
  unfolding keys
  keys-AllDistinct [] i = tt
  keys-AllDistinct ((k, v) ∷ m) i = ground (arith, contains-keys k m, keys-AllDistinct m i.1)
