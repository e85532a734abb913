-- ===== src/Storage/Tests.antt =====
-- Small runs of the storage crate, and the theorems about it at concrete inputs.
use kamino.Prelude.{
  Option, none, All, ℕ, suc, ◌+◌, ◌≤◌, ◌^◌, ◌≡◌, refl, true, false, List, [], ◌∷◌, ◌++◌, some,
  arith, leb, ltb, if◌then◌else◌, ◌==◌, insert_ascending, without, length,
}
use kamino.Prelude.Int.{ℤ, pos}
use kamino.Storage.Locker
use kamino.Storage.Locker.{
  holding, run, acquire, lock, drop_guard, finish, get_or_create, fetch_add, fetch_sub,
  cleanup_reap, is_task,
}
use kamino.Storage.Deps.{Deps}
use kamino.Storage.Outcome.{ok}
use kamino.Storage.Entry.{is_expired, Entry, encoded, encoded_len, decode, IsEncodable}
use kamino.Storage.Entry.RoundTrip.{decode-encoded}
use kamino.Storage.Table.{seal, read_write, Table, with_capacity, append, u32_max}
use kamino.Storage.Table
use kamino.Storage.Table.Valid.{view, IsValid, with_capacity-IsValid}
use kamino.Storage.Table.Append.{after_append, view-after_append}
use kamino.Storage.Table.Append.Keeps.{after_append-IsValid}
use kamino.Storage.Table.Laws.{get-append}
use kamino.Storage.Table.Scan.{Callback, scan, visit}
use kamino.Storage.Table.Scan.Entries.{entries, scan-visit}
use kamino.Storage.Compaction.{compact_table}
use kamino.Storage.Compaction.Copy.{compact_table_lem}
use kamino.Storage.RamBlock
use kamino.Storage.RamBlock.{new, RamBlock, get, put, delete, put_lww}
use kamino.Storage.RamBlock.Tables.{IsSound, AreSound}
use kamino.Storage.RamBlock.Laws.{get-put}
use kamino.Storage.RamBlock.Lww.{is_written, IsMerged, put_lww_lem, put_lww_converges}
use kamino.Storage.RamBlock.Writable.{seal-IsSound}
use kamino.Storage.RamBlock.Compact.{compact, compact_lem}
use kamino.Storage.RamBlock.Transfer.{import_entries}
use kamino.Storage.RamBlock.Transfer.Merge.{concatenated, merge_all, import_entries_lem}
use kamino.Storage.Eviction.{expire}
use kamino.Storage.Eviction.Sample.{expire_lem}
use kamino.Storage.RamBlock.Resurrection.{get-delete-put}

-- A bitmap as its ascending list, an allocator that gives what is asked, whole numbers for ratios.
abbrev plain : Deps
plain = record {
  Bitmap = List ℕ;
  bitmap_new = [];
  bitmap_insert = insert_ascending;
  bitmap_remove = without;
  bitmap_iter = λ b. b;
  iter-new = refl;
  iter-insert = λ x b. refl;
  iter-remove = λ x b. refl;
  allocated = λ n. n;
  le-allocated = λ n. omega arith;
  F64 = ℕ;
  f64_zero = 0;
  f64_of = λ n. n;
  f64_div = λ a b. a;
  f64_le = leb;
}

abbrev first : Entry
first = record {
  key = 107 ∷ [];
  ttl_nanos = pos 0;
  timestamp_nanos = pos 1;
  last_access_nanos = pos 1;
  value = 118 ∷ [];
}

abbrev second : Entry
second = record first { timestamp_nanos = pos 2; value = 119 ∷ 120 ∷ [] }

first-IsEncodable : IsEncodable first
first-IsEncodable = omega arith

second-IsEncodable : IsEncodable second
second-IsEncodable = omega arith

decode-encoded_example : decode (encoded first ++ 7 ∷ []) ≡ ok (first, encoded_len first)
decode-encoded_example = decode-encoded first (7 ∷ []) first-IsEncodable

-- A table with one entry and room for another, and a table that is full with it.
abbrev roomy : Table plain
roomy = after_append plain (with_capacity plain 64) 1 first

roomy-IsValid : IsValid plain roomy
unfolding encoded_len
roomy-IsValid =
    after_append-IsValid plain (with_capacity plain 64) 1 first (with_capacity-IsValid plain 64)
      first-IsEncodable (unfold with_capacity in omega arith) (unfold with_capacity in omega arith)

abbrev full : Table plain
full = after_append plain (with_capacity plain 31) 1 first

full-IsValid : IsValid plain full
unfolding encoded_len
full-IsValid =
    after_append-IsValid plain (with_capacity plain 31) 1 first (with_capacity-IsValid plain 31)
      first-IsEncodable (unfold with_capacity in omega arith) (unfold with_capacity in omega arith)

full-IsSound : IsSound plain full
full-IsSound = record {
  valid = full-IsValid;
  small = unfold after_append with_capacity in omega arith;
  in_use = unfold after_append with_capacity in λ e. cc;
}

abbrev engine : RamBlock plain
engine = record { tables = full ∷ []; table_capacity = 31; max_garbage_ratio = 0 }

present_first : view plain full 1 ≡ some first
present_first =
    view-after_append plain (with_capacity plain 31) 1 1 first (with_capacity-IsValid plain 31)
      first-IsEncodable

engine-AreSound : AreSound plain engine.tables
engine-AreSound = record { sound = (full-IsSound, tt); shaped = tt }

get-append_example :
    ((append plain roomy 1 second).0
      ≡ ok (if ltb roomy.capacity (roomy.offset + encoded_len second) then false else true))
    × (Table.get plain (append plain roomy 1 second).1 1 ≡ (
        if ltb roomy.capacity (roomy.offset + encoded_len second)
        then Table.get plain roomy 1
        else if 1 == 1
        then ok (some second)
        else Table.get plain roomy 1))
unfolding after_append with_capacity encoded_len
get-append_example =
    get-append plain roomy 1 1 second roomy-IsValid second-IsEncodable (omega arith)

abbrev count : Callback ℕ
count n hk e = (ok true, suc n)

scan-visit_example : scan plain count full 0 ≡ visit count (entries plain full) 0
scan-visit_example = scan-visit plain full full-IsValid count 0

compact_table_example :
    (dst : Table plain) × (compact_table plain full 0 ≡ ok dst)
    × IsValid plain dst
    × ((k : ℕ) → view plain dst k ≡ view plain full k)
    × (dst.garbage_bytes ≡ 0)
    × (dst.live_bytes ≡ full.live_bytes)
    × (dst.state ≡ read_write)
    × (dst.capacity ≤ 2 ^ 32)
unfolding after_append with_capacity encoded_len
compact_table_example = compact_table_lem plain full 0 full-IsValid (omega arith)

get-put_example :
    (r' : RamBlock plain) × (put plain engine 1 second ≡ (ok tt, r'))
    × AreSound plain r'.tables
    × ((j : ℕ) → get plain r' j ≡ (if 1 == j then ok (some second) else get plain engine j))
unfolding encoded_len
get-put_example = get-put plain engine 1 second engine-AreSound second-IsEncodable (omega arith)

put_lww_example :
    (r' : RamBlock plain) × (put_lww plain engine 1 second
      ≡ (ok (is_written (RamBlock.Tables.view plain engine.tables 1) second), r'))
    × IsMerged plain engine 1 second r'
unfolding encoded_len
put_lww_example = put_lww_lem plain engine 1 second engine-AreSound second-IsEncodable (omega arith)

converges_example :
    get plain (put_lww plain (put_lww plain engine 1 first).1 1 second).1 1
    ≡ get plain (put_lww plain (put_lww plain engine 1 second).1 1 first).1 1
unfolding encoded_len
converges_example =
    put_lww_converges plain engine 1 first second engine-AreSound first-IsEncodable
      second-IsEncodable (omega arith) (omega arith) (omega arith) 1

resurrection_example :
    ((delete plain (put plain engine 1 second).1 1).0 ≡ ok true)
    × (get plain (delete plain (put plain engine 1 second).1 1).1 1 ≡ ok (some first))
unfolding after_append with_capacity encoded_len
resurrection_example =
    get-delete-put plain engine full 1 first second refl full-IsSound refl present_first
      second-IsEncodable (omega arith) (omega arith)

-- The full table, sealed.
abbrev sealed_engine : RamBlock plain
sealed_engine = record engine { tables = seal plain full ∷ [] }

sealed_engine-AreSound : AreSound plain sealed_engine.tables
sealed_engine-AreSound = record {
  sound = (seal-IsSound plain 31 0 full full-IsSound, tt);
  shaped = tt;
}

compact_example :
    (n : ℕ) × (r' : RamBlock plain) × (compact plain sealed_engine ≡ (ok n, r'))
    × AreSound plain r'.tables
    × ((k : ℕ)
        → RamBlock.Tables.view plain r'.tables k
          ≡ RamBlock.Tables.view plain sealed_engine.tables k)
compact_example = compact_lem plain (λ n h. h) sealed_engine sealed_engine-AreSound

import_example :
    (r' : RamBlock plain) × (import_entries plain length 2 engine
        (concatenated (first ∷ second ∷ []) ++ [])
      ≡ (ok tt, r'))
    × AreSound plain r'.tables
    × ((j : ℕ)
        → RamBlock.Tables.view plain r'.tables j
          ≡ merge_all length (first ∷ second ∷ []) (RamBlock.Tables.view plain engine.tables) j)
unfolding encoded_len
import_example =
    import_entries_lem plain length 31 (first ∷ second ∷ []) engine [] engine-AreSound refl
      ((first-IsEncodable, omega arith), ((second-IsEncodable, omega arith), tt))

abbrev sample : List (ℕ × Entry)
sample = (1, record first { ttl_nanos = pos 5 }) ∷ []

expire_example :
    (n : ℕ) × (r' : RamBlock plain) × (expire plain (λ n xs. xs) (λ n xs. xs) (pos 9) engine sample
      ≡ (ok n, r'))
    × AreSound plain r'.tables
    × ((j : ℕ)
        → All (λ (x : ℕ × Entry). x.0 ≡ j → is_expired x.1 (pos 9) ≡ false) sample
        → get plain r' j ≡ get plain engine j)
expire_example = expire_lem plain (λ n xs. xs) (λ n xs. xs) (pos 9) sample engine engine-AreSound

abbrev accesses : List (ℕ × ℤ)
accesses = (4, pos 8) ∷ (5, pos 6) ∷ (6, pos 7) ∷ []

-- Two tasks come for a key, and the first gets the lock.
abbrev contest : List (ℕ × Locker.Action)
contest = (1, acquire) ∷ (1, Locker.count) ∷ (2, acquire) ∷ (2, Locker.count) ∷ (1, lock) ∷ []

abbrev after_run : Option Locker.Locker → Locker.Locker
after_run none = Locker.new
after_run (some l) = l

-- 2 clones the entry of the key between the two parts of the drop by 1, and 3 comes after.
abbrev race : List (ℕ × Locker.Action)
race =
    (1, acquire)
    ∷ (1, Locker.count)
    ∷ (1, lock)
    ∷ (1, drop_guard)
    ∷ (2, acquire)
    ∷ (1, finish)
    ∷ (2, Locker.count)
    ∷ (2, lock)
    ∷ (3, acquire)
    ∷ (3, Locker.count)
    ∷ (3, lock)
    ∷ []

-- 2 and 3 both have a lock of the key, of two entries.
race_runs :
    ((after_run (run race Locker.new)).phase 2 ≡ holding 0)
    × ((after_run (run race Locker.new)).phase 3 ≡ holding 1)
unfolding run Locker.step Locker.act get_or_create fetch_add fetch_sub cleanup_reap is_task
    Locker.update Locker.new
race_runs = (refl, refl)
