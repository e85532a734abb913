-- ===== src/Storage/Table/State.antt =====
-- `seal` of crates/kamino-storage/src/table.rs: the state changes, and nothing else.
use kamino.Prelude.{◌≡◌, ◌≢◌, refl, ℕ, arith}
use kamino.Storage.Deps.{Deps}
use kamino.Storage.Table.{TableState, read_write, read_only, recycled, Table, seal}
use kamino.Storage.Table.Valid.{view, IsValid}

abbrev pub sealed : TableState → TableState
sealed read_write = read_only
sealed s = s

module _ (deps : Deps) where
  pub seal_lem : (t : Table deps) → seal deps t ≡ record t { state = sealed t.state }
  unfolding seal
  seal_lem t = ground arith

  pub with_state-IsValid :
      (t : Table deps) (s : TableState) → IsValid deps t → IsValid deps (record t { state = s })
  unfolding view
  with_state-IsValid t s v = record {
    filled = v.filled;
    within = v.within;
    keys = v.keys;
    stored = v.stored;
    small = v.small;
    injective = v.injective;
    indexed_live = v.indexed_live;
    live_indexed = v.live_indexed;
    encodable = v.encodable;
    distinct = v.distinct;
    live = v.live;
    accounted = v.accounted;
  }

  pub view-with_state :
      (t : Table deps) (s : TableState) (k : ℕ)
      → view deps (record t { state = s }) k ≡ view deps t k
  unfolding view
  view-with_state t s k = refl

  pub sealed-ne : (s : TableState) → sealed s ≢ read_write
  sealed-ne s e = ground arith

  pub sealed-ne-recycled : (s : TableState) → s ≢ recycled → sealed s ≢ recycled
  sealed-ne-recycled s h e = ground arith
