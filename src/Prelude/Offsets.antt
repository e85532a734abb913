-- ===== src/Prelude/Offsets.antt =====
-- A set of numbers as the list of its elements in ascending order.
use Prim.Native.Nat.{ℕ}
use mathlib.Core.Path.{◌≡◌}
use mathlib.Core.Bool.{Bool, true, false, ◌||◌}
use mathlib.Core.List.{List, [], ◌∷◌}
use native.Mathlib.Omega.{arith}
use kamino.Prelude.Tests.{◌==◌, ltb, if◌then◌else◌}

unfoldable pub contains : ℕ → List ℕ → Bool
contains x [] = false
contains x (y ∷ ys) = y == x || contains x ys

unfoldable pub insert_ascending : ℕ → List ℕ → List ℕ
insert_ascending x [] = x ∷ []
insert_ascending x (y ∷ ys) =
    if ltb x y then x ∷ y ∷ ys else if x == y then y ∷ ys else y ∷ insert_ascending x ys

unfoldable pub without : ℕ → List ℕ → List ℕ
without x [] = []
without x (y ∷ ys) = let rest = without x ys in if y == x then rest else y ∷ rest

-- No number stands twice.
abbrev pub AllDistinct : List ℕ → Type 0
AllDistinct [] = Unit
AllDistinct (x ∷ xs) = (contains x xs ≡ false) × AllDistinct xs

pub contains-insert_ascending :
    (x z : ℕ) (ys : List ℕ)
    → contains z (insert_ascending x ys) ≡ (if x == z then true else contains z ys)
unfolding contains insert_ascending
contains-insert_ascending x z [] = ground arith
contains-insert_ascending x z (y ∷ ys) = ground (arith, contains-insert_ascending x z ys)

pub contains-without :
    (x z : ℕ) (ys : List ℕ) → contains z (without x ys) ≡ (if x == z then false else contains z ys)
unfolding contains without
contains-without x z [] = ground arith
contains-without x z (y ∷ ys) = ground (arith, contains-without x z ys)

pub without-AllDistinct : (x : ℕ) (ys : List ℕ) → AllDistinct ys → AllDistinct (without x ys)
unfolding without
without-AllDistinct x [] h = h
without-AllDistinct x (y ∷ ys) h =
    ground (arith, without-AllDistinct x ys h.1, contains-without x y ys)

pub insert_ascending-AllDistinct :
    (x : ℕ) (ys : List ℕ)
    → contains x ys ≡ false
    → AllDistinct ys
    → AllDistinct (insert_ascending x ys)
unfolding insert_ascending contains
insert_ascending-AllDistinct x [] n h = ground arith
insert_ascending-AllDistinct x (y ∷ ys) n h =
    ground (arith, insert_ascending-AllDistinct x ys, contains-insert_ascending x y ys)
