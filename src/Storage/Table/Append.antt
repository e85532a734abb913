-- ===== src/Storage/Table/Append.antt =====
-- `append` of crates/kamino-storage/src/table.rs.
pub mod Keeps
use kamino.Prelude.{
  ℕ, suc, ◌+◌, ◌-◌, ◌≤◌, ◌<◌, ◌≡◌, refl, ◌∙◌, ap, Bool, true, false, List, [], ◌++◌, Option, none,
  some, arith, inl, inr, length, ltb, drop, length-append, drop-append_eq, HashMap, lookup, insert,
  remove, IsMap, total, contains, AllDistinct, if◌then◌else◌, ◌==◌, Option-cases, Bool-cases,
  lookup-insert, lookup-remove, insert-IsMap, remove-IsMap, total-remove, total_congr,
  remove_absent, contains-insert_ascending, contains-without, without-AllDistinct,
  insert_ascending-AllDistinct, append-nil,
}
use kamino.Storage.Deps.{Deps}
use kamino.Storage.Outcome.{Result, ok, err, panic, key_too_large, value_too_large}
use kamino.Storage.Entry.{
  Entry, encoded_len, encoded, encode_into, decode, IsEncodable, max_key_len, max_value_len,
}
use kamino.Storage.Entry.RoundTrip.{encode_into_lem, decode-encoded, length-encoded}
use kamino.Storage.Table.{Table, u32_max, demote, append}
use kamino.Storage.Table.Valid.{
  entry_at, size_at, entry_at_of_decode, size_at_of_decode, Stored, Stored-intro, Stored-append,
  entry_at-append, size_at-append, entry_at-Stored, size_at-Stored, view, IsValid,
}

module _ (deps : Deps) where
  open deps use {Bitmap, bitmap_iter, bitmap_insert, bitmap_remove, iter-insert, iter-remove}

  -- `demote` of a stored entry.
  pub demote_lem :
      (t : Table deps) (off : ℕ)
      → off ≤ u32_max
      → Stored t.memory off
      → demote deps t off ≡ (
        ok tt,
        record t {
          offset_index = bitmap_remove off t.offset_index;
          garbage_bytes = t.garbage_bytes + size_at t.memory off;
          live_bytes = t.live_bytes - size_at t.memory off;
        },
      )
  unfolding demote
  demote_lem t off h s = rw (size_at-Stored t.memory off s) (ground (arith, s.decoded))

  -- What a table holds of the entry that a key had before.
  abbrev pub old_size : Table deps → ℕ → ℕ
  old_size t k = elim (lookup k t.hkeys) [ none ↦ 0 | some off ↦ size_at t.memory off ]

  abbrev pub old_index : Table deps → ℕ → Bitmap
  old_index t k = elim (lookup k t.hkeys) [
    | none ↦ t.offset_index
    | some off ↦ bitmap_remove off t.offset_index
  ]

  unfoldable pub after_append : Table deps → ℕ → Entry → Table deps
  after_append t k e = record t {
    memory = t.memory ++ encoded e;
    hkeys = insert k t.offset t.hkeys;
    offset_index = bitmap_insert t.offset (old_index t k);
    offset = t.offset + encoded_len e;
    garbage_bytes = t.garbage_bytes + old_size t k;
    live_bytes = t.live_bytes - old_size t k + encoded_len e;
  }

  -- An entry that fits is appended; nothing of the call fails.
  pub append_lem :
      (t : Table deps) (k : ℕ) (e : Entry)
      → IsValid deps t
      → IsEncodable e
      → t.offset ≤ u32_max
      → t.offset + encoded_len e ≤ t.capacity
      → append deps t k e ≡ (ok true, after_append t k e)
  unfolding append after_append
  append_lem t k e v h small room = elim (Option-cases (lookup k t.hkeys)) [
    | inl new ↦ ground (arith, encode_into_lem e t.memory h)
    | inr (off, old) ↦
        let s = v.stored k off old in
        ground (
          arith,
          encode_into_lem e t.memory h,
          size_at-append t.memory (encoded e) off s,
          demote_lem
              (record t {
                memory = t.memory ++ encoded e;
                offset = t.offset + encoded_len e;
                hkeys = insert k t.offset t.hkeys;
              })
              off (v.small k off old) (Stored-append t.memory (encoded e) off s),
        )
  ]

  -- On a valid table whose end is within the 32-bit offsets, `append` answers false without room,
  -- refuses a key or a value that is too large, and otherwise writes the entry; only the last one
  -- changes the table, to the table `after_append`.
  pub append_outcomes :
      (t : Table deps) (k : ℕ) (e : Entry)
      → IsValid deps t
      → t.offset ≤ u32_max
      → append deps t k e ≡ (
          if ltb t.capacity (t.offset + encoded_len e)
          then (ok false, t)
          else if ltb max_key_len (length e.key)
          then (err (key_too_large (length e.key) max_key_len), t)
          else if ltb max_value_len (length e.value)
          then (err (value_too_large (length e.value) max_value_len), t)
          else (ok true, after_append t k e))
  unfolding append after_append encode_into
  append_outcomes t k e v small = elim (Option-cases (lookup k t.hkeys)) [
    | inl new ↦ ground arith
    | inr (off, old) ↦
        let s = v.stored k off old in
        ground (
          arith,
          size_at-append t.memory (encoded e) off s,
          demote_lem
              (record t {
                memory = t.memory ++ encoded e;
                offset = t.offset + encoded_len e;
                hkeys = insert k t.offset t.hkeys;
              })
              off (v.small k off old) (Stored-append t.memory (encoded e) off s),
        )
  ]

  -- What was written at the end of the block.
  pub Stored-end :
      (t : Table deps) (e : Entry)
      → IsValid deps t
      → IsEncodable e
      → decode (drop t.offset (t.memory ++ encoded e)) ≡ ok (e, encoded_len e)
  Stored-end t e v h =
      rw (drop-append_eq t.offset t.memory (encoded e) v.filled, ← append-nil (encoded e))
        (decode-encoded e [] h)

  -- A key reads the entry that was appended under it; every other key reads what it did.
  pub view-after_append :
      (t : Table deps) (k j : ℕ) (e : Entry)
      → IsValid deps t
      → IsEncodable e
      → view deps (after_append t k e) j ≡ (if k == j then some e else view deps t j)
  unfolding view after_append
  view-after_append t k j e v h = elim (Option-cases (lookup j t.hkeys)) [
    | inl new ↦ ground (arith, lookup-insert k j t.offset t.hkeys, entry_at-end)
    | inr (off, old) ↦ ground (
      arith,
      lookup-insert k j t.offset t.hkeys,
      entry_at-end,
      entry_at-append t.memory (encoded e) off (v.stored j off old),
    )
  ]
    where
      entry_at-end : entry_at (t.memory ++ encoded e) t.offset ≡ some e
      entry_at-end = entry_at_of_decode _ t.offset (Stored-end t e v h)

  -- The offsets in use stand before the end of the block.
  pub lt-offset :
      (t : Table deps) (j off : ℕ) → IsValid deps t → lookup j t.hkeys ≡ some off → off < t.offset
  unfolding encoded_len
  lt-offset t j off v e = omega (arith, v.filled, (v.stored j off e).inside)

  -- A key that reads nothing is not in the index.
  pub lookup-eq-none :
      (t : Table deps) (k : ℕ) → IsValid deps t → view deps t k ≡ none → lookup k t.hkeys ≡ none
  unfolding view
  lookup-eq-none t k v h = elim (Option-cases (lookup k t.hkeys)) [
    | inl missing ↦ missing
    | inr (off, live) ↦
        let stored = entry_at-Stored t.memory off (v.stored k off live) in absurd (ground arith)
  ]

  -- A new key makes no garbage.
  pub garbage-after_append :
      (t : Table deps) (k : ℕ) (e : Entry)
      → IsValid deps t
      → view deps t k ≡ none
      → (after_append t k e).garbage_bytes ≡ t.garbage_bytes
  unfolding after_append
  garbage-after_append t k e v h = ground (arith, lookup-eq-none t k v h)

  pub offset-after_append :
      (t : Table deps) (k : ℕ) (e : Entry) → (after_append t k e).offset ≡ t.offset + encoded_len e
  unfolding after_append
  offset-after_append t k e = refl
