-- ===== src/Storage/Table/Delete.antt =====
-- `get` and `delete` of crates/kamino-storage/src/table.rs.
use kamino.Prelude.{
  ℕ, ◌+◌, ◌-◌, ◌≡◌, ◌≢◌, true, false, none, some, arith, inl, inr, lookup, remove, contains,
  if◌then◌else◌, ◌==◌, Option-cases, lookup-remove, remove-IsMap, total-remove, contains-without,
  without-AllDistinct,
}
use kamino.Storage.Deps.{Deps}
use kamino.Storage.Outcome.{ok}
use kamino.Storage.Table.{Table, get, delete}
use kamino.Storage.Table.Valid.{size_at, entry_at-Stored, view, IsValid}
use kamino.Storage.Table.Append.{demote_lem}

module _ (deps : Deps) where
  open deps use {Bitmap, bitmap_iter, bitmap_remove, iter-remove}

  -- `get` never fails on a valid table, and reads the map that the table stands for.
  pub get-view : (t : Table deps) (k : ℕ) → IsValid deps t → get deps t k ≡ ok (view deps t k)
  unfolding get view
  get-view t k v = elim (Option-cases (lookup k t.hkeys)) [
    | inl missing ↦ ground arith
    | inr (off, live) ↦
        let s = v.stored k off live in ground (arith, s.decoded, entry_at-Stored t.memory off s)
  ]

  unfoldable pub after_delete : Table deps → ℕ → ℕ → Table deps
  after_delete t k off = record t {
    hkeys = remove k t.hkeys;
    offset_index = bitmap_remove off t.offset_index;
    garbage_bytes = t.garbage_bytes + size_at t.memory off;
    live_bytes = t.live_bytes - size_at t.memory off;
  }

  -- What `delete` returns, and the table after it.
  pub delete_lem :
      (t : Table deps) (k : ℕ)
      → IsValid deps t
      → delete deps t k ≡ elim (lookup k t.hkeys) [
        | none ↦ (ok false, t)
        | some off ↦ (ok true, after_delete t k off)
      ]
  unfolding delete after_delete
  delete_lem t k v = elim (Option-cases (lookup k t.hkeys)) [
    | inl missing ↦ ground arith
    | inr (off, live) ↦ ground (
      arith,
      demote_lem deps (record t { hkeys = remove k t.hkeys }) off (v.small k off live)
          (v.stored k off live),
    )
  ]

  -- The deleted key reads nothing, every other key reads what it did.
  pub view-after_delete :
      (t : Table deps) (k off j : ℕ)
      → view deps (after_delete t k off) j ≡ (if k == j then none else view deps t j)
  unfolding view after_delete
  view-after_delete t k off j = ground (arith, lookup-remove k j t.hkeys)

  pub after_delete-IsValid :
      (t : Table deps) (k off : ℕ)
      → IsValid deps t
      → lookup k t.hkeys ≡ some off
      → IsValid deps (after_delete t k off)
  unfolding after_delete
  after_delete-IsValid t k off v live = record {
    filled = v.filled;
    within = v.within;
    keys = remove-IsMap k t.hkeys v.keys;
    stored = λ j o p. v.stored j o (ground (arith, lookup-remove k j t.hkeys));
    small = λ j o p. v.small j o (ground (arith, lookup-remove k j t.hkeys));
    injective = λ i j o p q.
        v.injective i j o (ground (arith, lookup-remove k i t.hkeys))
          (ground (arith, lookup-remove k j t.hkeys));
    indexed_live = λ o p.
        let was : (contains o (bitmap_iter t.offset_index) ≡ true) × (off ≢ o) = ground (
          arith,
          iter-remove off t.offset_index,
          contains-without off o (bitmap_iter t.offset_index),
        ) in
        let (j, old) = v.indexed_live o was.0 in (j, ground (arith, lookup-remove k j t.hkeys));
    live_indexed = λ j o p. rw (iter-remove off t.offset_index) (
        ground (
          arith,
          contains-without off o (bitmap_iter t.offset_index),
          lookup-remove k j t.hkeys,
          v.live_indexed j o,
          v.injective k j o,
        ));
    encodable = λ j e p. v.encodable j e (ground (arith, view-after_delete t k off j));
    distinct =
        rw (iter-remove off t.offset_index)
          (without-AllDistinct off (bitmap_iter t.offset_index) v.distinct);
    live = omega (arith, v.live, total-remove (size_at t.memory) k off t.hkeys v.keys live);
    accounted =
        omega
          (arith, v.live, v.accounted, total-remove (size_at t.memory) k off t.hkeys v.keys live);
  }
