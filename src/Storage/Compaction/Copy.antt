-- ===== src/Storage/Compaction/Copy.antt =====
-- Compaction keeps every live entry and drops all garbage.
use kamino.Prelude.{
  ℕ, ◌+◌, ◌≤◌, ◌^◌, ◌≡◌, ◌∙◌, refl, sym, true, List, [], ◌∷◌, none, some, arith, max, lookup, IsMap,
  total,
}
use kamino.Storage.Deps.{Deps}
use kamino.Storage.Outcome.{ok}
use kamino.Storage.Entry.{Entry, encoded_len, IsEncodable}
use kamino.Storage.Table.{read_write, Table, u32_max, with_capacity, append}
use kamino.Storage.Table.Valid.{view, IsValid, with_capacity-IsValid, view-with_capacity}
use kamino.Storage.Table.Append.{
  after_append, garbage-after_append, offset-after_append, append_lem, view-after_append,
}
use kamino.Storage.Table.Append.Keeps.{after_append-IsValid}
use kamino.Storage.Table.Scan.{visit}
use kamino.Storage.Table.Scan.Entries.{
  entries, scan-visit, lookup-entries, entries-IsMap, total-entries,
}
use kamino.Storage.Compaction.{copy, compact_table}

module _ (deps : Deps) where
  -- A list of new entries, all of which find room in the table.
  pub record Fits (es : List (ℕ × Entry)) (d : Table deps) : Type 0 where
    pub valid : IsValid deps d
    pub unique : IsMap es
    pub fresh : (k : ℕ) (e : Entry) → lookup k es ≡ some e → view deps d k ≡ none
    pub encodable : (k : ℕ) (e : Entry) → lookup k es ≡ some e → IsEncodable e
    pub room : d.offset + total encoded_len es ≤ d.capacity
    pub small : d.capacity ≤ 2 ^ 32
    pub clean : d.garbage_bytes ≡ 0

  -- What copying a list of entries into a table gives.
  pub record Copied (es : List (ℕ × Entry)) (d d' : Table deps) : Type 0 where
    pub valid : IsValid deps d'
    pub views :
        (k : ℕ) → view deps d' k ≡ elim (lookup k es) [ none ↦ view deps d k | some e ↦ some e ]
    pub clean : d'.garbage_bytes ≡ 0
    pub filled : d'.offset ≡ d.offset + total encoded_len es
    pub same_state : d'.state ≡ d.state
    pub same_capacity : d'.capacity ≡ d.capacity

  module _ (k : ℕ) (e : Entry) (es : List (ℕ × Entry)) (d : Table deps)
      (f : Fits ((k, e) ∷ es) d) where
    head-IsEncodable : IsEncodable e
    unfolding lookup
    head-IsEncodable = f.encodable k e (ground arith)

    head_small : d.offset ≤ u32_max
    unfolding total encoded_len
    head_small = omega (arith, f)

    head_fits : d.offset + encoded_len e ≤ d.capacity
    unfolding total
    head_fits = omega (arith, f)

    append_head : append deps d k e ≡ (ok true, after_append deps d k e)
    append_head = append_lem deps d k e f.valid head-IsEncodable head_small head_fits

    Fits-step : Fits es (after_append deps d k e)
    unfolding lookup total after_append
    Fits-step = record {
      valid = after_append-IsValid deps d k e f.valid head-IsEncodable head_small head_fits;
      unique = f.unique.1;
      fresh = λ j x p.
          rw (view-after_append deps d k j e f.valid head-IsEncodable)
            (ground (arith, f.fresh j x, f.unique.0));
      encodable = λ j x p. f.encodable j x (ground (arith, f.unique.0));
      room = omega (arith, f.room);
      small = f.small;
      clean = garbage-after_append deps d k e f.valid (f.fresh k e (ground arith)) ∙ f.clean;
    }

    Copied-step :
        {d' : Table deps} → Copied es (after_append deps d k e) d' → Copied ((k, e) ∷ es) d d'
    unfolding lookup total after_append
    Copied-step c = record {
      valid = c.valid;
      views = λ j.
          ground
            (arith, c.views j, view-after_append deps d k j e f.valid head-IsEncodable, f.unique.0);
      clean = c.clean;
      filled = omega (arith, c.filled, offset-after_append deps d k e);
      same_state = c.same_state;
      same_capacity = c.same_capacity;
    }

  -- The callback over such a list copies all of it.
  visit-copy :
      (es : List (ℕ × Entry)) (d : Table deps)
      → Fits es d
      → (d' : Table deps) × (visit (copy deps) es (record { dst = d; error = none })
          ≡ (ok true, record { dst = d'; error = none }))
        × Copied es d d'
  unfolding copy total lookup
  visit-copy [] d f = (
    d,
    refl,
    record {
      valid = f.valid;
      views = λ k. refl;
      clean = f.clean;
      filled = omega arith;
      same_state = refl;
      same_capacity = refl;
    },
  )
  visit-copy ((k, e) ∷ es) d f =
      let (d', run, c) = visit-copy es (after_append deps d k e) (Fits-step k e es d f) in
      (d', rw (append_head k e es d f) run, Copied-step k e es d f c)

  -- Compacting a valid table, where the new table stays within 4 GiB, gives a valid table that
  -- reads the same at every key, has no garbage, has the same live bytes, is writable and stays
  -- within 4 GiB.
  pub compact_table_lem :
      (src : Table deps) (capacity : ℕ)
      → IsValid deps src
      → deps.allocated (max capacity src.live_bytes) ≤ 2 ^ 32
      → (dst : Table deps) × (compact_table deps src capacity ≡ ok dst)
        × IsValid deps dst
        × ((k : ℕ) → view deps dst k ≡ view deps src k)
        × (dst.garbage_bytes ≡ 0)
        × (dst.live_bytes ≡ src.live_bytes)
        × (dst.state ≡ read_write)
        × (dst.capacity ≤ 2 ^ 32)
  unfolding compact_table
  compact_table_lem src capacity v small =
      let d = with_capacity deps (max capacity src.live_bytes) in
      let fits : Fits (entries deps src) d = record {
        valid = with_capacity-IsValid deps _;
        unique = entries-IsMap deps src v;
        fresh = λ k e p. view-with_capacity deps _ k;
        encodable = λ k e p. v.encodable k e (sym (lookup-entries deps src v k) ∙ p);
        room =
            unfold with_capacity in
            omega
              (arith, total-entries deps src v, deps.le-allocated (max capacity src.live_bytes));
        small = unfold with_capacity in small;
        clean = unfold with_capacity in refl;
      } in
      let (dst, run, c) = visit-copy (entries deps src) d fits in
      (
        dst,
        rw (scan-visit deps src v, run),
        c.valid,
        (λ k. ground (
          arith,
          c.views k,
          lookup-entries deps src v k,
          view-with_capacity deps (max capacity src.live_bytes) k,
        )),
        c.clean,
        unfold with_capacity in
            omega (arith, c.valid.accounted, c.clean, c.filled, total-entries deps src v),
        unfold with_capacity in c.same_state,
        unfold with_capacity in omega (arith, c.same_capacity, small),
      )
