-- ===== src/Storage/Table/Scan.antt =====
-- `scan` of crates/kamino-storage/src/table.rs. A callback over a state `S` returns whether to go
-- on and its new state; it may panic.
pub mod Entries
use kamino.Prelude.{
  ℕ, Bool, true, false, List, [], ◌∷◌, Option, none, some, HashMap, lookup, insert,
}
use kamino.Storage.Deps.{Deps}
use kamino.Storage.Outcome.{Result, ok, err, panic, ◌>>=◌}
use kamino.Storage.Entry.{Entry}
use kamino.Storage.Table.{Table, decode_at, offset_to_u32}

abbrev pub Callback : Type 0 → Type 0
Callback S = S → ℕ → Entry → Result Bool × S

-- `off_to_hkey`
unfoldable pub invert : HashMap ℕ → Result (HashMap ℕ)
invert [] = ok []
invert ((hk, off) ∷ m) = do rest ← invert m; o ← offset_to_u32 off; ok (insert o hk rest)

-- What follows a call of the callback: `rest` is the scan of what is left.
abbrev pub resume {ℓ} : {S : Type ℓ} → Result Bool × S → (S → Result Bool × S) → Result Bool × S
resume (ok true, s) rest = rest s
resume (ok false, s) rest = (ok false, s)
resume (err e, s) rest = (err e, s)
resume (panic, s) rest = (panic, s)

module _ (deps : Deps) {S : Type 0} (f : Callback S) where
  open deps use {bitmap_iter}

  abbrev call : Result Entry → ℕ → S → (S → Result Bool × S) → Result Bool × S
  call (ok e) hk s rest = resume (f s hk e) rest
  call (err e) hk s rest = (err e, s)
  call panic hk s rest = (panic, s)

  -- The loop over the offsets in ascending order.
  unfoldable pub scan_offsets : Table deps → HashMap ℕ → List ℕ → S → Result Bool × S
  scan_offsets t inv [] s = (ok true, s)
  scan_offsets t inv (off ∷ offs) s = elim (lookup off inv) [
    | none ↦ scan_offsets t inv offs s
    | some hk ↦ call (decode_at deps t off) hk s (scan_offsets t inv offs)
  ]

  abbrev scan_with : Table deps → Result (HashMap ℕ) → S → Result Bool × S
  scan_with t (ok inv) s = scan_offsets t inv (bitmap_iter t.offset_index) s
  scan_with t (err e) s = (err e, s)
  scan_with t panic s = (panic, s)

  -- The result is `ok false` when the callback asked to stop.
  unfoldable pub scan : Table deps → S → Result Bool × S
  scan t s = scan_with t (invert t.hkeys) s

-- The specification: the callback over a list of entries.
abbrev pub visit : {S : Type 0} → Callback S → List (ℕ × Entry) → S → Result Bool × S
visit f [] s = (ok true, s)
visit f ((k, e) ∷ es) s = resume (f s k e) (visit f es)
