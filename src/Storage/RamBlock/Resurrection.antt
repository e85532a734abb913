-- ===== src/Storage/RamBlock/Resurrection.antt =====
-- A deleted key that reads again: `put` into a full head seals the head with the older copy still
-- live in it, so `delete` takes away the newer copy only.
use kamino.Prelude.{
  ℕ, ◌+◌, ◌≤◌, ◌<◌, ◌^◌, ◌≡◌, refl, ap, ◌∙◌, true, false, List, [], ◌∷◌, some, arith, inl, inr,
  lookup, lookup-insert, Option-cases, max,
}
use kamino.Storage.Deps.{Deps}
use kamino.Storage.Outcome.{ok}
use kamino.Storage.Entry.{Entry, encoded_len, IsEncodable}
use kamino.Storage.Table.{Table, read_write, with_capacity, seal}
use kamino.Storage.Table.Valid
use kamino.Storage.Table.Valid.{view-with_capacity, with_capacity-IsValid}
use kamino.Storage.Table.State.{sealed, seal_lem, view-with_state}
use kamino.Storage.Table.Append.{after_append, append_lem}
use kamino.Storage.Table.Append.Keeps.{after_append-IsValid}
use kamino.Storage.Table.Delete.{delete_lem, after_delete, view-after_delete, after_delete-IsValid}
use kamino.Storage.RamBlock.{
  RamBlock, get, put, delete, find_live, delete_at, rposition, ensure_writable_for, drop_sealed,
  append_last,
}
use kamino.Storage.RamBlock.Tables.{IsSound, view}
use kamino.Storage.RamBlock.Reads.{get_tables-view}
use kamino.Storage.RamBlock.Writable.{seal-IsSound}

module _ (deps : Deps) (r : RamBlock deps) (t : Table deps) (k : ℕ) (old new' : Entry)
    (only : r.tables ≡ t ∷ []) (s : IsSound deps t) (writable : t.state ≡ read_write)
    (present : Valid.view deps t k ≡ some old) (h : IsEncodable new')
    (full : t.capacity < t.offset + encoded_len new')
    (small : deps.allocated (max (encoded_len new') r.table_capacity) ≤ 2 ^ 32) where
  abbrev fresh : Table deps
  fresh = with_capacity deps (max (encoded_len new') r.table_capacity)

  abbrev two : List (Table deps)
  two = seal deps t ∷ after_append deps fresh k new' ∷ []

  in_index : (off : ℕ) × (lookup k t.hkeys ≡ some off)
  unfolding Valid.view
  in_index = elim (Option-cases (lookup k t.hkeys)) [
    | inl missing ↦ absurd (ground arith)
    | inr (off, live) ↦ (off, live)
  ]

  drop_nothing : drop_sealed deps (t ∷ []) k ≡ (ok false, t ∷ [])
  unfolding drop_sealed find_live rposition
  drop_nothing = let (off, live) = in_index in ground arith

  head_replaced :
      ensure_writable_for deps r.table_capacity (encoded_len new') (t ∷ [])
      ≡ seal deps t ∷ fresh ∷ []
  unfolding ensure_writable_for rposition
  head_replaced = ground arith

  appended : append_last deps (seal deps t ∷ fresh ∷ []) k new' ≡ (ok true, two)
  unfolding append_last
  appended = rw (
      append_lem deps fresh k new' (with_capacity-IsValid deps _) h
        (unfold with_capacity in omega arith)
        (unfold with_capacity in
          omega (arith, deps.le-allocated (max (encoded_len new') r.table_capacity))))

  put_leaves : put deps r k new' ≡ (ok tt, record r { tables = two })
  unfolding put
  put_leaves = rw (only, drop_nothing, head_replaced, appended)

  abbrev newest : Table deps
  newest = after_append deps fresh k new'

  newest-IsValid : Valid.IsValid deps newest
  newest-IsValid =
      after_append-IsValid deps fresh k new' (with_capacity-IsValid deps _) h
        (unfold with_capacity in omega arith)
        (unfold with_capacity in
          omega (arith, deps.le-allocated (max (encoded_len new') r.table_capacity)))

  newest_live : lookup k newest.hkeys ≡ some fresh.offset
  unfolding after_append
  newest_live = rw (lookup-insert k k fresh.offset fresh.hkeys) (ground arith)

  abbrev left : List (Table deps)
  left = seal deps t ∷ after_delete deps newest k fresh.offset ∷ []

  newest_state : newest.state ≡ read_write
  unfolding after_append with_capacity
  newest_state = refl

  found : find_live deps two k ≡ some 1
  unfolding find_live rposition
  found = ground (arith, newest_live, newest_state)

  deleted : delete_at deps two 1 k ≡ (ok true, left)
  unfolding delete_at
  deleted = ground (arith, delete_lem deps newest k newest-IsValid, newest_live)

  left-IsSound :
      (IsSound deps (seal deps t))
      × IsSound deps (after_delete deps newest k fresh.offset)
      × Unit {0}
  left-IsSound = (
    seal-IsSound deps r.table_capacity 0 t s,
    record {
      valid = after_delete-IsValid deps newest k fresh.offset newest-IsValid newest_live;
      small = unfold after_delete after_append with_capacity in small;
      in_use = unfold after_delete after_append with_capacity in λ e. cc;
    },
    tt,
  )

  sealed_reads : Valid.view deps (seal deps t) k ≡ some old
  sealed_reads = rw (seal_lem deps t) (view-with_state deps t (sealed t.state) k ∙ present)

  left-view : view deps left k ≡ some old
  unfolding view
  left-view = ground (arith, view-after_delete deps newest k fresh.offset k, sealed_reads)

  delete_leaves : delete deps (record r { tables = two }) k ≡ (ok true, record r { tables = left })
  unfolding delete
  delete_leaves = ground (arith, found, deleted)

  -- On an engine with one sound table that is writable, has the key live and has no room for the
  -- new entry, and whose new table stays within 4 GiB, a `put` of the key and then a `delete`,
  -- which answers that it deleted, leave the key reading the entry from before the `put`.
  pub get-delete-put :
      ((delete deps (put deps r k new').1 k).0 ≡ ok true)
      × (get deps (delete deps (put deps r k new').1 k).1 k ≡ ok (some old))
  unfolding get
  get-delete-put = (
    rw (put_leaves, delete_leaves),
    rw (put_leaves, delete_leaves)
        (get_tables-view deps left k (left-IsSound.0, (left-IsSound.1, tt)) ∙ ap ok left-view),
  )
