-- ===== src/Storage/Table/Laws.antt =====
-- The operations of crates/kamino-storage/src/table.rs as operations of a map.
use kamino.Prelude.{
  ℕ, ◌+◌, ◌≤◌, ◌≡◌, true, false, none, some, arith, inl, inr, ltb, lookup, if◌then◌else◌, ◌==◌,
  Option-cases, Bool-cases, subst, sym,
}
use kamino.Storage.Deps.{Deps}
use kamino.Storage.Outcome.{ok}
use kamino.Storage.Entry.{Entry, encoded_len, IsEncodable}
use kamino.Storage.Table.{Table, u32_max, append, get, delete}
use kamino.Storage.Table.Valid.{view, IsValid}
use kamino.Storage.Table.Append.{after_append, append_lem, append_outcomes, view-after_append}
use kamino.Storage.Table.Append.Keeps.{after_append-IsValid}
use kamino.Storage.Table.Delete.{
  get-view, delete_lem, after_delete, view-after_delete, after_delete-IsValid,
}

module _ (deps : Deps) where
  -- A valid table whose end is within the 32-bit offsets stays valid under `append` of an entry
  -- that the codec takes, whether or not the entry finds room.
  pub append-IsValid :
      (t : Table deps) (k : ℕ) (e : Entry)
      → IsValid deps t
      → IsEncodable e
      → t.offset ≤ u32_max
      → IsValid deps (append deps t k e).1
  append-IsValid t k e v h small = elim (Bool-cases (ltb t.capacity (t.offset + encoded_len e))) [
    | inl full ↦
        let same : append deps t k e ≡ (ok false, t) =
          ground (arith, append_outcomes deps t k e v small) in
        subst (λ x. IsValid deps x.1) (sym same) v
    | inr room ↦
        let fits : t.offset + encoded_len e ≤ t.capacity = ground arith in
        subst (λ x. IsValid deps x.1) (sym (append_lem deps t k e v h small fits))
          (after_append-IsValid deps t k e v h small fits)
  ]

  -- On a valid table whose end is within the 32-bit offsets, `append` of an entry that the codec
  -- takes answers true exactly when the entry has room; then the key reads it and every other key
  -- reads what it did; without room every key reads what it did.
  pub get-append :
      (t : Table deps) (k j : ℕ) (e : Entry)
      → IsValid deps t
      → IsEncodable e
      → t.offset ≤ u32_max
      → ((append deps t k e).0
          ≡ ok (if ltb t.capacity (t.offset + encoded_len e) then false else true))
        × (get deps (append deps t k e).1 j ≡ (
            if ltb t.capacity (t.offset + encoded_len e)
            then get deps t j
            else if k == j
            then ok (some e)
            else get deps t j))
  get-append t k j e v h small = elim (Bool-cases (ltb t.capacity (t.offset + encoded_len e))) [
    | inl full ↦ ground (arith, append_outcomes deps t k e v small)
    | inr room ↦
        let fits : t.offset + encoded_len e ≤ t.capacity = ground arith in
        let done = append_lem deps t k e v h small fits in
        let v' = after_append-IsValid deps t k e v h small fits in
        ground (
          arith,
          done,
          get-view deps (after_append deps t k e) j v',
          get-view deps t j v,
          view-after_append deps t k j e v h,
        )
  ]

  -- A valid table stays valid under `delete`.
  pub delete-IsValid : (t : Table deps) (k : ℕ) → IsValid deps t → IsValid deps (delete deps t k).1
  delete-IsValid t k v = elim (Option-cases (lookup k t.hkeys)) [
    | inl missing ↦
        let same : delete deps t k ≡ (ok false, t) = ground (arith, delete_lem deps t k v) in
        subst (λ x. IsValid deps x.1) (sym same) v
    | inr (off, live) ↦
        let same : delete deps t k ≡ (ok true, after_delete deps t k off) =
          ground (arith, delete_lem deps t k v) in
        subst (λ x. IsValid deps x.1) (sym same) (after_delete-IsValid deps t k off v live)
  ]

  -- After `delete` on a valid table the key reads nothing and every other key reads what it did.
  pub get-delete :
      (t : Table deps) (k j : ℕ)
      → IsValid deps t
      → get deps (delete deps t k).1 j ≡ (if k == j then ok none else get deps t j)
  unfolding view
  get-delete t k j v = elim (Option-cases (lookup k t.hkeys)) [
    | inl missing ↦ ground (arith, delete_lem deps t k v, get-view deps t j v)
    | inr (off, live) ↦ ground (
      arith,
      delete_lem deps t k v,
      get-view deps t j v,
      get-view deps (after_delete deps t k off) j (after_delete-IsValid deps t k off v live),
      view-after_delete deps t k off j,
    )
  ]
