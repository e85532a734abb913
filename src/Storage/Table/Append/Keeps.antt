-- ===== src/Storage/Table/Append/Keeps.antt =====
-- `append` of crates/kamino-storage/src/table.rs keeps a table valid.
use kamino.Prelude.{
  ℕ, ◌+◌, ◌-◌, ◌≤◌, ◌≡◌, true, false, List, ◌++◌, none, some, arith, inl, inr, length-append,
  lookup, insert, remove, total, contains, AllDistinct, if◌then◌else◌, ◌==◌, Option-cases,
  Bool-cases, lookup-insert, lookup-remove, insert-IsMap, remove-IsMap, total-remove, total_congr,
  remove_absent, contains-insert_ascending, contains-without, without-AllDistinct,
  insert_ascending-AllDistinct,
}
use kamino.Storage.Deps.{Deps}
use kamino.Storage.Entry.{Entry, encoded_len, encoded, IsEncodable}
use kamino.Storage.Entry.RoundTrip.{length-encoded}
use kamino.Storage.Table.{Table, u32_max}
use kamino.Storage.Table.Valid.{
  size_at, size_at_of_decode, Stored, Stored-intro, Stored-append, size_at-append, view, IsValid,
}
use kamino.Storage.Table.Append.{
  after_append, old_size, old_index, Stored-end, view-after_append, lt-offset,
}

module _ (deps : Deps) where
  open deps use {Bitmap, bitmap_iter, bitmap_insert, bitmap_remove, iter-insert, iter-remove}

  module _ (t : Table deps) (k : ℕ) (e : Entry) (v : IsValid deps t) (h : IsEncodable e) where
    abbrev block : List ℕ
    block = t.memory ++ encoded e

    after_append-Stored :
        (j off : ℕ) → lookup j (insert k t.offset t.hkeys) ≡ some off → Stored block off
    after_append-Stored j off p = elim (Bool-cases (k == j)) [
      | inl same ↦
          let e' : t.offset ≡ off = ground (arith, lookup-insert k j t.offset t.hkeys) in
          rw (← e') (Stored-intro block t.offset (Stored-end deps t e v h))
      | inr other ↦
          Stored-append t.memory (encoded e) off
            (v.stored j off (ground (arith, lookup-insert k j t.offset t.hkeys)))
    ]

    after_append-injective :
        (i j off : ℕ)
        → lookup i (insert k t.offset t.hkeys) ≡ some off
        → lookup j (insert k t.offset t.hkeys) ≡ some off
        → i ≡ j
    after_append-injective i j off p q = ground (
      arith,
      lookup-insert k i t.offset t.hkeys,
      lookup-insert k j t.offset t.hkeys,
      lt-offset deps t i off v,
      lt-offset deps t j off v,
      v.injective i j off,
    )

    contains-old_index :
        (off : ℕ)
        → contains off (bitmap_iter (old_index deps t k)) ≡ elim (lookup k t.hkeys) [
          | none ↦ contains off (bitmap_iter t.offset_index)
          | some old ↦ if old == off then false else contains off (bitmap_iter t.offset_index)
        ]
    contains-old_index off = elim (Option-cases (lookup k t.hkeys)) [
      | inl new ↦ ground arith
      | inr (old, was) ↦ ground (
        arith,
        iter-remove old t.offset_index,
        contains-without old off (bitmap_iter t.offset_index),
      )
    ]

    -- The entries that stay have the sizes that they had.
    kept_total :
        total (size_at block) (remove k t.hkeys) ≡ total (size_at t.memory) (remove k t.hkeys)
    kept_total =
        total_congr (size_at block) (size_at t.memory) (remove k t.hkeys)
          (remove-IsMap k t.hkeys v.keys)
          λ j off p.
            size_at-append t.memory (encoded e) off
              (v.stored j off (ground (arith, lookup-remove k j t.hkeys)))

    old_total : total (size_at t.memory) (remove k t.hkeys) + old_size deps t k ≡ t.live_bytes
    old_total = elim (Option-cases (lookup k t.hkeys)) [
      | inl new ↦ ground (arith, v.live, remove_absent k t.hkeys new)
      | inr (old, was) ↦
          ground (arith, v.live, total-remove (size_at t.memory) k old t.hkeys v.keys was)
    ]

    after_append-live :
        t.live_bytes - old_size deps t k + encoded_len e
        ≡ total (size_at block) (insert k t.offset t.hkeys)
    unfolding insert total
    after_append-live =
        omega
          (arith, kept_total, old_total, size_at_of_decode block t.offset (Stored-end deps t e v h))

    after_append-indexed_live :
        (off : ℕ)
        → contains off (bitmap_iter (bitmap_insert t.offset (old_index deps t k))) ≡ true
        → (j : ℕ) × (lookup j (insert k t.offset t.hkeys) ≡ some off)
    after_append-indexed_live off p = elim (Bool-cases (t.offset == off)) [
      | inl last ↦ (k, ground (arith, lookup-insert k k t.offset t.hkeys))
      | inr before ↦
          let kept : contains off (bitmap_iter (old_index deps t k)) ≡ true = ground (
            arith,
            iter-insert t.offset (old_index deps t k),
            contains-insert_ascending t.offset off (bitmap_iter (old_index deps t k)),
          ) in
          let was : contains off (bitmap_iter t.offset_index) ≡ true =
            ground (arith, contains-old_index off) in
          let (j, live) = v.indexed_live off was in
          (j, ground (arith, lookup-insert k j t.offset t.hkeys, contains-old_index off))
    ]

    after_append-live_indexed :
        (j off : ℕ)
        → lookup j (insert k t.offset t.hkeys) ≡ some off
        → contains off (bitmap_iter (bitmap_insert t.offset (old_index deps t k))) ≡ true
    after_append-live_indexed j off p = rw (iter-insert t.offset (old_index deps t k)) (
        ground (
          arith,
          contains-insert_ascending t.offset off (bitmap_iter (old_index deps t k)),
          lookup-insert k j t.offset t.hkeys,
          contains-old_index off,
          v.live_indexed j off,
          v.injective k j off,
        ))

    old_index-AllDistinct : AllDistinct (bitmap_iter (old_index deps t k))
    old_index-AllDistinct = elim (Option-cases (lookup k t.hkeys)) [
      | inl new ↦ rw (new, old_index) v.distinct
      | inr (old, was) ↦
          rw (was, old_index, iter-remove old t.offset_index)
            (without-AllDistinct old (bitmap_iter t.offset_index) v.distinct)
    ]

    fresh_offset : contains t.offset (bitmap_iter (old_index deps t k)) ≡ false
    fresh_offset = elim (Bool-cases (contains t.offset (bitmap_iter t.offset_index))) [
      | inl used ↦
          let (j, live) = v.indexed_live t.offset used in
          absurd (omega (arith, lt-offset deps t j t.offset v live))
      | inr free ↦ ground (arith, contains-old_index t.offset)
    ]

    after_append-distinct : AllDistinct (bitmap_iter (bitmap_insert t.offset (old_index deps t k)))
    after_append-distinct = rw (iter-insert t.offset (old_index deps t k)) (
        insert_ascending-AllDistinct t.offset (bitmap_iter (old_index deps t k)) fresh_offset
          old_index-AllDistinct)

    after_append-IsEncodable :
        (j : ℕ) (e' : Entry) → view deps (after_append deps t k e) j ≡ some e' → IsEncodable e'
    after_append-IsEncodable j e' p = elim (Bool-cases (k == j)) [
      | inl same ↦ let q : e ≡ e' = ground (arith, view-after_append deps t k j e v h) in rw (← q) h
      | inr other ↦ v.encodable j e' (ground (arith, view-after_append deps t k j e v h))
    ]

  -- A table stays valid when an entry is appended.
  pub after_append-IsValid :
      (t : Table deps) (k : ℕ) (e : Entry)
      → IsValid deps t
      → IsEncodable e
      → t.offset ≤ u32_max
      → t.offset + encoded_len e ≤ t.capacity
      → IsValid deps (after_append deps t k e)
  unfolding after_append
  after_append-IsValid t k e v h small room = record {
    filled = omega (arith, length-append t.memory (encoded e), length-encoded e, v.filled);
    within = room;
    keys = insert-IsMap k t.offset t.hkeys v.keys;
    stored = after_append-Stored t k e v h;
    small = λ j off p. ground (arith, lookup-insert k j t.offset t.hkeys, v.small j off);
    injective = after_append-injective t k e v h;
    indexed_live = after_append-indexed_live t k e v h;
    live_indexed = after_append-live_indexed t k e v h;
    encodable = after_append-IsEncodable t k e v h;
    distinct = after_append-distinct t k e v h;
    live = after_append-live t k e v h;
    accounted = omega (arith, v.accounted, old_total t k e v h);
  }
