-- ===== src/Storage/Table.antt =====
-- crates/kamino-storage/src/table.rs: the append-only memory block with its index.
-- A method that mutates returns its result beside the table as the call left it, which on an error
-- or a panic is the table with the writes made so far.
pub mod Valid
pub mod Append
pub mod State
pub mod Delete
pub mod Laws
pub mod Scan
use kamino.Prelude.{
  ℕ, ◌+◌, ◌-◌, ◌^◌, Bool, true, false, List, [], ◌∷◌, Option, none, some, ltb, ◌==◌, if◌then◌else◌,
  length, drop, HashMap, lookup, remove, insert,
}
use kamino.Storage.Deps.{Deps}
use kamino.Storage.Outcome.{Result, ok, err, panic, ◌>>=◌}
use kamino.Storage.Entry.{Entry, encoded_len, encode_into, decode}

-- crates/kamino-storage/src/engine.rs
pub data TableState : Type 0 where
  read_write read_only recycled : TableState

abbrev pub u32_max : ℕ
u32_max = 2 ^ 32 - 1

-- `offset_to_u32` panics on an offset that does not fit.
unfoldable pub offset_to_u32 : ℕ → Result ℕ
offset_to_u32 off = if ltb u32_max off then panic else ok off

module _ (deps : Deps) where
  open deps use {
    Bitmap, bitmap_new, bitmap_insert, bitmap_remove, bitmap_iter, allocated, F64, f64_zero, f64_of,
    f64_div,
  }

  -- `capacity` is that of the vector `memory`.
  pub record Table : Type 0 where
    pub memory : List ℕ
    pub capacity : ℕ
    pub hkeys : HashMap ℕ
    pub offset_index : Bitmap
    pub offset : ℕ
    pub garbage_bytes : ℕ
    pub live_bytes : ℕ
    pub state : TableState

  unfoldable pub with_capacity : ℕ → Table
  with_capacity capacity = record {
    memory = [];
    capacity = allocated capacity;
    hkeys = [];
    offset_index = bitmap_new;
    offset = 0;
    garbage_bytes = 0;
    live_bytes = 0;
    state = read_write;
  }

  unfoldable pub len : Table → ℕ
  len t = length t.hkeys

  unfoldable pub inuse : Table → ℕ
  inuse t = t.live_bytes

  unfoldable pub garbage_ratio : Table → F64
  garbage_ratio t =
      if t.offset == 0 then f64_zero else f64_div (f64_of t.garbage_bytes) (f64_of t.offset)

  unfoldable pub decode_at : Table → ℕ → Result Entry
  decode_at t off = do (entry, _) ← decode (drop off t.memory); ok entry

  abbrev count_garbage : Table → Result Entry → Result (Unit {0}) × Table
  count_garbage t (ok prev) = (
    ok tt,
    record t {
      garbage_bytes = t.garbage_bytes + encoded_len prev;
      live_bytes = t.live_bytes - encoded_len prev;
    },
  )
  count_garbage t (err e) = (err e, t)
  count_garbage t panic = (panic, t)

  abbrev unindex : Table → Result ℕ → ℕ → Result (Unit {0}) × Table
  unindex t (ok o) off =
      let t' = record t { offset_index = bitmap_remove o t.offset_index } in
      count_garbage t' (decode_at t' off)
  unindex t (err e) off = (err e, t)
  unindex t panic off = (panic, t)

  -- The entry at `off` leaves the offset index and becomes garbage: the common part of `append`
  -- and `delete`.
  unfoldable pub demote : Table → ℕ → Result (Unit {0}) × Table
  unfolding decode_at offset_to_u32
  demote t off = unindex t (offset_to_u32 off) off

  abbrev add_offset : Table → Result ℕ → ℕ → Result Bool × Table
  add_offset t (ok o) need = (
    ok true,
    record t { offset_index = bitmap_insert o t.offset_index; live_bytes = t.live_bytes + need },
  )
  add_offset t (err e) need = (err e, t)
  add_offset t panic need = (panic, t)

  abbrev then_add : Result (Unit {0}) × Table → ℕ → ℕ → Result Bool × Table
  then_add (ok _, t) start need = add_offset t (offset_to_u32 start) need
  then_add (err e, t) start need = (err e, t)
  then_add (panic, t) start need = (panic, t)

  -- The part of `append` after the bytes of the entry are written at `start`.
  unfoldable pub index_entry : Table → ℕ → ℕ → ℕ → Result Bool × Table
  unfolding offset_to_u32
  index_entry t hkey start need =
      let t' = record t { hkeys = insert hkey start t.hkeys } in
      let demoted : Result (Unit {0}) × Table = elim (lookup hkey t.hkeys) [
        | none ↦ (ok tt, t')
        | some prev_off ↦ demote t' prev_off
      ] in
      then_add demoted start need

  abbrev write_entry : Table → Result (List ℕ) → ℕ → ℕ → Result Bool × Table
  write_entry t (ok memory) hkey need =
      index_entry (record t { memory = memory; offset = t.offset + need }) hkey t.offset need
  write_entry t (err e) hkey need = (err e, t)
  write_entry t panic hkey need = (panic, t)

  -- `ok false` when the table has no room. In a release build the state is not looked at.
  unfoldable pub append : Table → ℕ → Entry → Result Bool × Table
  unfolding index_entry
  append t hkey entry =
      let need = encoded_len entry in
      if ltb t.capacity (t.offset + need)
      then (ok false, t)
      else write_entry t (encode_into entry t.memory) hkey need

  unfoldable pub get : Table → ℕ → Result (Option Entry)
  unfolding decode_at
  get t hkey = elim (lookup hkey t.hkeys) [
    | none ↦ ok none
    | some off ↦ decode_at t off >>= λ e. ok (some e)
  ]

  abbrev then_true : Result (Unit {0}) × Table → Result Bool × Table
  then_true (ok _, t) = (ok true, t)
  then_true (err e, t) = (err e, t)
  then_true (panic, t) = (panic, t)

  unfoldable pub delete : Table → ℕ → Result Bool × Table
  delete t hkey = elim (lookup hkey t.hkeys) [
    | none ↦ (ok false, t)
    | some off ↦ then_true (demote (record t { hkeys = remove hkey t.hkeys }) off)
  ]

  unfoldable pub seal : Table → Table
  seal t = elim t.state [ read_write ↦ record t { state = read_only } | _ ↦ t ]

  unfoldable pub recycle : Table → Table
  recycle t = record t { state = recycled }
