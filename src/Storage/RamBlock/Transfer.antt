-- ===== src/Storage/RamBlock/Transfer.antt =====
-- `export` and `import` of crates/kamino-storage/src/ramblock.rs. `hash_key` is that of the
-- standard library's default hasher.
pub mod Merge
use kamino.Prelude.{
  ℕ, zero, suc, ◌-◌, ◌^◌, Bool, true, false, not, List, [], ◌∷◌, ◌++◌, Option, none, some, ltb,
  ◌==◌, if◌then◌else◌, length, drop, slice,
}
use kamino.Prelude.Int.{leb_ℤ}
use kamino.Prelude.Bytes.{to_le_bytes, from_le_bytes}
use kamino.Storage.Deps.{Deps}
use kamino.Storage.Outcome.{
  Error, import_format, export_count, empty_payload, unknown_tag, missing_count, Result, ok, err,
  panic,
}
use kamino.Storage.Entry.{Entry, encode_into, decode}
use kamino.Storage.Table.Scan.{Callback}
use kamino.Storage.RamBlock.{RamBlock, get, put, len, scan_tables}

-- `ExportFormat::EntriesV1`
abbrev pub entries_v1 : ℕ
entries_v1 = 1

-- The variables that the callback of `export` captures.
pub record Exporting : Type 0 where
  pub buf : List ℕ
  pub error : Option Error

abbrev encoded_to : Exporting → Result (List ℕ) → Result Bool × Exporting
encoded_to s (ok buf) = (ok true, record s { buf = buf })
encoded_to s (err e) = (ok false, record s { error = some e })
encoded_to s panic = (panic, s)

unfoldable pub export_entry : Callback Exporting
export_entry s hkey entry = encoded_to s (encode_into entry s.buf)

abbrev exported : Result Bool × Exporting → Result (List ℕ)
exported (ok _, s) = elim s.error [ none ↦ ok s.buf | some e ↦ err e ]
exported (err e, s) = err e
exported (panic, s) = panic

module _ (deps : Deps) where
  unfoldable pub export : RamBlock deps → Result (List ℕ)
  export r =
      let count = len deps r in
      if ltb (2 ^ 32 - 1) count
      then err (import_format (export_count count))
      else exported (
          scan_tables deps export_entry r.tables
            (record { buf = entries_v1 ∷ to_le_bytes 4 count; error = none }))

  module _ (hash_key : List ℕ → ℕ) where
    -- What `import` does with one decoded entry.
    unfoldable pub import_entry : RamBlock deps → Entry → Result (Unit {0}) × RamBlock deps
    import_entry r entry =
        let hkey = hash_key entry.key in
        elim (get deps r hkey) [
          | err e ↦ (err e, r)
          | panic ↦ (panic, r)
          | ok found ↦ elim found [
            | none ↦ put deps r hkey entry
            | some existing ↦
                if leb_ℤ entry.timestamp_nanos existing.timestamp_nanos
                then (ok tt, r)
                else put deps r hkey entry
          ]
        ]

    abbrev then_rest :
        Result (Unit {0}) × RamBlock deps
        → (RamBlock deps → Result (Unit {0}) × RamBlock deps)
        → Result (Unit {0}) × RamBlock deps
    then_rest (ok _, r) rest = rest r
    then_rest (err e, r) rest = (err e, r)
    then_rest (panic, r) rest = (panic, r)

    abbrev decoded :
        RamBlock deps
        → Result (Entry × ℕ)
        → (ℕ → RamBlock deps → Result (Unit {0}) × RamBlock deps)
        → Result (Unit {0}) × RamBlock deps
    decoded r (ok (entry, used)) rest = then_rest (import_entry r entry) (rest used)
    decoded r (err e) rest = (err e, r)
    decoded r panic rest = (panic, r)

    -- The loop of `import` over `count` entries; `bytes` is what is left behind the cursor.
    unfoldable pub import_entries : ℕ → RamBlock deps → List ℕ → Result (Unit {0}) × RamBlock deps
    import_entries zero r bytes = (ok tt, r)
    import_entries (suc count) r bytes =
        decoded r (decode bytes) λ used r'. import_entries count r' (drop used bytes)

    unfoldable pub import : RamBlock deps → List ℕ → Result (Unit {0}) × RamBlock deps
    import r [] = (err (import_format empty_payload), r)
    import r (tag ∷ rest) =
        if not (tag == entries_v1)
        then (err (import_format (unknown_tag tag)), r)
        else if ltb (length (tag ∷ rest)) 5
        then (err (import_format missing_count), r)
        else import_entries (from_le_bytes (slice 1 4 (tag ∷ rest))) r (drop 5 (tag ∷ rest))
