-- ===== src/Storage/RamBlock/Tables.antt =====
-- What holds of the tables of the engine between two calls, and the map that they stand for.
use kamino.Prelude.{ℕ, ◌≤◌, ◌^◌, ◌≢◌, List, [], ◌∷◌, Option, none, some, All}
use kamino.Storage.Deps.{Deps}
use kamino.Storage.Entry.{Entry}
use kamino.Storage.Table.{TableState, read_write, recycled, Table}
use kamino.Storage.Table.Valid
use kamino.Storage.Table.Valid.{IsValid}

-- Only the last table may be writable.
abbrev pub IsShaped : List TableState → Type 0
IsShaped [] = Unit
IsShaped (s ∷ []) = Unit
IsShaped (s ∷ s' ∷ ss) = (s ≢ read_write) × IsShaped (s' ∷ ss)

abbrev pub newer : Option Entry → Option Entry → Option Entry
newer none old = old
newer (some e) old = some e

module _ (deps : Deps) where
  pub record IsSound (t : Table deps) : Type 0 where
    pub valid : IsValid deps t
    pub small : t.capacity ≤ 2 ^ 32
    pub in_use : t.state ≢ recycled

  abbrev pub states : List (Table deps) → List TableState
  states [] = []
  states (t ∷ ts) = t.state ∷ states ts

  -- A table that comes later hides the ones before it.
  unfoldable pub view : List (Table deps) → ℕ → Option Entry
  view [] k = none
  view (t ∷ ts) k = newer (view ts k) (Valid.view deps t k)

  pub record AreSound (ts : List (Table deps)) : Type 0 where
    pub sound : All IsSound ts
    pub shaped : IsShaped (states ts)
