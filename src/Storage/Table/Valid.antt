-- ===== src/Storage/Table/Valid.antt =====
-- What holds of a table of crates/kamino-storage/src/table.rs between two calls, and the map from
-- hash keys to entries that it stands for.
use kamino.Prelude.{
  ℕ, ◌+◌, ◌≤◌, ◌≡◌, refl, true, List, [], ◌++◌, Option, none, some, arith, length, drop,
  length-drop, drop-append_le, lookup, IsMap, total, contains, AllDistinct,
}
use kamino.Storage.Deps.{Deps}
use kamino.Storage.Outcome.{Result, ok}
use kamino.Storage.Entry.{Entry, encoded_len, decode, IsEncodable}
use kamino.Storage.Entry.RoundTrip.{decode-append, decode-bounds}
use kamino.Storage.Table.{Table, u32_max, with_capacity}

-- The entry at an offset of a block of bytes, and the bytes that it takes.
abbrev entry_of : Result (Entry × ℕ) → Option Entry
entry_of (ok (e, _)) = some e
entry_of _ = none

abbrev size_of : Result (Entry × ℕ) → ℕ
size_of (ok (_, n)) = n
size_of _ = 0

unfoldable pub entry_at : List ℕ → ℕ → Option Entry
entry_at memory off = entry_of (decode (drop off memory))

unfoldable pub size_at : List ℕ → ℕ → ℕ
size_at memory off = size_of (decode (drop off memory))

pub record Stored (memory : List ℕ) (off : ℕ) : Type 0 where
  pub entry : Entry
  pub decoded : decode (drop off memory) ≡ ok (entry, encoded_len entry)
  pub inside : off + encoded_len entry ≤ length memory

pub Stored-intro :
    (memory : List ℕ) (off : ℕ) {e : Entry} {n : ℕ}
    → decode (drop off memory) ≡ ok (e, n)
    → Stored memory off
unfolding encoded_len
Stored-intro memory off {e} {n} h =
    let (fits, len) = decode-bounds (drop off memory) h in
    record {
      entry = e;
      decoded = rw (← len) h;
      inside = omega (arith, length-drop off memory, fits, len);
    }

pub entry_at-Stored :
    (memory : List ℕ) (off : ℕ) (s : Stored memory off) → entry_at memory off ≡ some s.entry
unfolding entry_at
entry_at-Stored memory off s = rw s.decoded

pub size_at-Stored :
    (memory : List ℕ) (off : ℕ) (s : Stored memory off) → size_at memory off ≡ encoded_len s.entry
unfolding size_at
size_at-Stored memory off s = rw s.decoded

pub entry_at_of_decode :
    (memory : List ℕ) (off : ℕ) {e : Entry} {n : ℕ}
    → decode (drop off memory) ≡ ok (e, n)
    → entry_at memory off ≡ some e
unfolding entry_at
entry_at_of_decode memory off h = rw h

pub size_at_of_decode :
    (memory : List ℕ) (off : ℕ) {e : Entry} {n : ℕ}
    → decode (drop off memory) ≡ ok (e, n)
    → size_at memory off ≡ n
unfolding size_at
size_at_of_decode memory off h = rw h

-- A block that grows keeps what is stored.
pub decode-drop-append :
    (memory r : List ℕ) (off : ℕ) (s : Stored memory off)
    → decode (drop off (memory ++ r)) ≡ ok (s.entry, encoded_len s.entry)
decode-drop-append memory r off s =
    rw (drop-append_le off memory r (omega (arith, s.inside)))
      (decode-append (drop off memory) r s.decoded)

pub Stored-append : (memory r : List ℕ) (off : ℕ) → Stored memory off → Stored (memory ++ r) off
Stored-append memory r off s = Stored-intro (memory ++ r) off (decode-drop-append memory r off s)

pub entry_at-append :
    (memory r : List ℕ) (off : ℕ)
    → Stored memory off
    → entry_at (memory ++ r) off ≡ entry_at memory off
unfolding entry_at
entry_at-append memory r off s = rw (decode-drop-append memory r off s, s.decoded)

pub size_at-append :
    (memory r : List ℕ) (off : ℕ)
    → Stored memory off
    → size_at (memory ++ r) off ≡ size_at memory off
unfolding size_at
size_at-append memory r off s = rw (decode-drop-append memory r off s, s.decoded)

module _ (deps : Deps) where
  open deps use {Bitmap, bitmap_iter, iter-new, le-allocated, allocated}

  -- The map that the table stands for.
  unfoldable pub view : Table deps → ℕ → Option Entry
  view t k = elim (lookup k t.hkeys) [ none ↦ none | some off ↦ entry_at t.memory off ]

  pub record IsValid (t : Table deps) : Type 0 where
    pub filled : length t.memory ≡ t.offset
    pub within : t.offset ≤ t.capacity
    pub keys : IsMap t.hkeys
    pub stored : (k off : ℕ) → lookup k t.hkeys ≡ some off → Stored t.memory off
    pub small : (k off : ℕ) → lookup k t.hkeys ≡ some off → off ≤ u32_max
    pub injective :
        (k j off : ℕ) → lookup k t.hkeys ≡ some off → lookup j t.hkeys ≡ some off → k ≡ j
    pub indexed_live :
        (off : ℕ)
        → contains off (bitmap_iter t.offset_index) ≡ true
        → (k : ℕ) × (lookup k t.hkeys ≡ some off)
    pub live_indexed :
        (k off : ℕ) → lookup k t.hkeys ≡ some off → contains off (bitmap_iter t.offset_index) ≡ true
    pub encodable : (k : ℕ) (e : Entry) → view t k ≡ some e → IsEncodable e
    pub distinct : AllDistinct (bitmap_iter t.offset_index)
    pub live : t.live_bytes ≡ total (size_at t.memory) t.hkeys
    pub accounted : t.live_bytes + t.garbage_bytes ≡ t.offset

  -- A fresh table is valid and empty.
  pub with_capacity-IsValid : (n : ℕ) → IsValid (with_capacity deps n)
  unfolding with_capacity lookup total contains view
  with_capacity-IsValid n = record {
    filled = refl;
    within = omega arith;
    keys = tt;
    stored = λ k off h. absurd (ground arith);
    small = λ k off h. absurd (ground arith);
    injective = λ k j off h i. absurd (ground arith);
    indexed_live = λ off h. let empty : contains off [] ≡ true = rw iter-new at h in cc;
    live_indexed = λ k off h. absurd (ground arith);
    encodable = λ k e h. absurd (ground arith);
    distinct = rw iter-new tt;
    live = refl;
    accounted = refl;
  }

  pub view-with_capacity : (n k : ℕ) → view (with_capacity deps n) k ≡ none
  unfolding view with_capacity lookup
  view-with_capacity n k = refl
