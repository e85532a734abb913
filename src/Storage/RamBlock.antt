-- ===== src/Storage/RamBlock.antt =====
-- crates/kamino-storage/src/ramblock.rs: the engine, a vector of tables of which the last one that
-- is not sealed takes the writes. Methods that mutate return the engine as the call left it.
pub mod Tables
pub mod Reads
pub mod Writable
pub mod Put
pub mod Laws
pub mod Lww
pub mod Resurrection
pub mod Compact
pub mod Transfer
use kamino.Prelude.{
  ℕ, suc, ◌+◌, ◌-◌, Bool, true, false, not, ◌&&◌, List, [], ◌∷◌, ◌++◌, Option, none, some, ltb, leb,
  if◌then◌else◌, get_elem?, set, lookup, max,
}
use kamino.Prelude.Int.{leb_ℤ}
use kamino.Storage.Deps.{Deps}
use kamino.Storage.Outcome.{Result, ok, err, panic, ◌>>=◌}
use kamino.Storage.Entry.{Entry, encoded_len}
use kamino.Storage.Table.{TableState, read_write, read_only, recycled, Table, with_capacity, seal}
use kamino.Storage.Table
use kamino.Storage.Table.Scan.{Callback, resume}
use kamino.Storage.Table.Scan
use kamino.Storage.Compaction.{compact_table}

-- `Iterator::rposition`
unfoldable pub rposition {ℓ} : {A : Type ℓ} → (A → Bool) → List A → Option ℕ
rposition p [] = none
rposition p (x ∷ xs) = elim (rposition p xs) [
  | some i ↦ some (suc i)
  | none ↦ if p x then some 0 else none
]

abbrev pub is_read_write : TableState → Bool
is_read_write read_write = true
is_read_write _ = false

abbrev pub is_recycled : TableState → Bool
is_recycled recycled = true
is_recycled _ = false

abbrev is_present : Option ℕ → Bool
is_present none = false
is_present (some _) = true

module _ (deps : Deps) where
  pub record RamBlock : Type 0 where
    pub tables : List (Table deps)
    pub table_capacity : ℕ
    pub max_garbage_ratio : deps.F64

  -- `new` asserts a positive capacity.
  unfoldable pub new : ℕ → deps.F64 → Result RamBlock
  new table_capacity max_garbage_ratio =
      if ltb 0 table_capacity
      then ok (record {
        tables = with_capacity deps table_capacity ∷ [];
        table_capacity = table_capacity;
        max_garbage_ratio = max_garbage_ratio;
      })
      else panic

  abbrev fits : Table deps → ℕ → Bool
  fits t need = leb (t.offset + need) t.capacity

  abbrev push_fresh : ℕ → ℕ → List (Table deps) → List (Table deps)
  push_fresh need cap ts = ts ++ with_capacity deps (max need cap) ∷ []

  -- `ensure_writable_for`, with the engine's capacity for a table
  unfoldable pub ensure_writable_for : ℕ → ℕ → List (Table deps) → List (Table deps)
  ensure_writable_for cap need ts =
      elim (rposition (λ (t : Table deps). is_read_write t.state) ts) [
        | none ↦ push_fresh need cap ts
        | some idx ↦ elim (get_elem? ts idx) [
          | none ↦ ts
          | some t ↦ if fits t need then ts else push_fresh need cap (set ts idx (seal deps t))
        ]
      ]

  unfoldable pub find_live : List (Table deps) → ℕ → Option ℕ
  find_live ts hkey =
      rposition (λ (t : Table deps). not (is_recycled t.state) && is_present (lookup hkey t.hkeys))
        ts

  abbrev stored_at :
      List (Table deps) → ℕ → Result Bool × Table deps → Result Bool × List (Table deps)
  stored_at ts idx (r, t) = (r, set ts idx t)

  -- `self.tables[idx].delete(hkey)`
  unfoldable pub delete_at : List (Table deps) → ℕ → ℕ → Result Bool × List (Table deps)
  delete_at ts idx hkey = elim (get_elem? ts idx) [
    | none ↦ (panic, ts)
    | some t ↦ stored_at ts idx (Table.delete deps t hkey)
  ]

  -- The first step of `put`: an older copy in a sealed table is dropped.
  unfoldable pub drop_sealed : List (Table deps) → ℕ → Result Bool × List (Table deps)
  drop_sealed ts hkey = elim (find_live ts hkey) [
    | none ↦ (ok false, ts)
    | some idx ↦ elim (get_elem? ts idx) [
      | none ↦ (panic, ts)
      | some t ↦ elim t.state [ read_only ↦ delete_at ts idx hkey | _ ↦ (ok false, ts) ]
    ]
  ]

  -- `self.tables.last_mut().expect(..).append(hkey, entry)`
  unfoldable pub append_last : List (Table deps) → ℕ → Entry → Result Bool × List (Table deps)
  append_last [] hkey entry = (panic, [])
  append_last (t ∷ []) hkey entry = let (r, t') = Table.append deps t hkey entry in (r, t' ∷ [])
  append_last (t ∷ u ∷ ts) hkey entry =
      let (r, ts') = append_last (u ∷ ts) hkey entry in (r, t ∷ ts')

  abbrev without_answer : Result Bool → Result (Unit {0})
  without_answer (ok _) = ok tt
  without_answer (err e) = err e
  without_answer panic = panic

  abbrev then_append :
      ℕ → Result Bool × List (Table deps) → ℕ → Entry → Result (Unit {0}) × List (Table deps)
  then_append cap (ok _, ts) hkey entry =
      let (r, ts') = append_last (ensure_writable_for cap (encoded_len entry) ts) hkey entry in
      (without_answer r, ts')
  then_append cap (err e, ts) hkey entry = (err e, ts)
  then_append cap (panic, ts) hkey entry = (panic, ts)

  -- `put` does not look at the answer of `append` in a release build.
  unfoldable pub put : RamBlock → ℕ → Entry → Result (Unit {0}) × RamBlock
  put r hkey entry =
      let (x, ts) = then_append r.table_capacity (drop_sealed r.tables hkey) hkey entry in
      (x, record r { tables = ts })

  abbrev older : Result (Option Entry) → Result (Option Entry) → Result (Option Entry)
  older (ok none) next = next
  older found next = found

  -- The loop of `get`, from the newest table to the oldest.
  unfoldable pub get_tables : List (Table deps) → ℕ → Result (Option Entry)
  get_tables [] hkey = ok none
  get_tables (t ∷ ts) hkey =
      older (get_tables ts hkey) (if is_recycled t.state then ok none else Table.get deps t hkey)

  unfoldable pub get : RamBlock → ℕ → Result (Option Entry)
  get r hkey = get_tables r.tables hkey

  unfoldable pub delete : RamBlock → ℕ → Result Bool × RamBlock
  delete r hkey = elim (find_live r.tables hkey) [
    | none ↦ (ok false, r)
    | some idx ↦ let (x, ts) = delete_at r.tables idx hkey in (x, record r { tables = ts })
  ]

  -- crates/kamino-storage/src/engine.rs: the default `put_lww`
  abbrev lww_applied : Result (Unit {0}) × RamBlock → Result Bool × RamBlock
  lww_applied (ok _, r) = (ok true, r)
  lww_applied (err e, r) = (err e, r)
  lww_applied (panic, r) = (panic, r)

  unfoldable pub put_lww : RamBlock → ℕ → Entry → Result Bool × RamBlock
  put_lww r hkey entry = elim (get r hkey) [
    | err e ↦ (err e, r)
    | panic ↦ (panic, r)
    | ok found ↦ elim found [
      | none ↦ lww_applied (put r hkey entry)
      | some existing ↦
          if leb_ℤ entry.timestamp_nanos existing.timestamp_nanos
          then (ok false, r)
          else lww_applied (put r hkey entry)
    ]
  ]

  -- The scan stops at the table where the callback stops.
  unfoldable pub scan_tables : {S : Type 0} → Callback S → List (Table deps) → S → Result Bool × S
  scan_tables f [] s = (ok true, s)
  scan_tables f (t ∷ ts) s =
      if is_recycled t.state
      then scan_tables f ts s
      else resume (Scan.scan deps f t s) (scan_tables f ts)

  -- A count summed over the live tables.
  unfoldable pub sum_tables : (Table deps → ℕ) → List (Table deps) → ℕ
  sum_tables f [] = 0
  sum_tables f (t ∷ ts) = (if is_recycled t.state then 0 else f t) + sum_tables f ts

  unfoldable pub len : RamBlock → ℕ
  len r = sum_tables (Table.len deps) r.tables

  unfoldable pub inuse : RamBlock → ℕ
  inuse r = sum_tables (Table.inuse deps) r.tables
