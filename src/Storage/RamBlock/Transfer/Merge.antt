-- ===== src/Storage/RamBlock/Transfer/Merge.antt =====
-- What an import leaves: the last write of each key.
use kamino.Prelude.{
  ℕ, ◌≤◌, ◌^◌, ◌≡◌, refl, ap, ◌∙◌, fun_ext, List, [], ◌∷◌, ◌++◌, Option, some, arith, inl, inr,
  Bool-cases, max, if◌then◌else◌, ◌==◌, length, drop, drop-append_eq, append_assoc, All,
}
use kamino.Storage.Deps.{Deps}
use kamino.Storage.Outcome.{ok}
use kamino.Storage.Entry.{Entry, encoded, encoded_len, decode, IsEncodable}
use kamino.Storage.Entry.RoundTrip.{decode-encoded, length-encoded}
use kamino.Storage.RamBlock.{RamBlock}
use kamino.Storage.RamBlock.Tables.{AreSound, view}
use kamino.Storage.RamBlock.Put.{put_lem}
use kamino.Storage.RamBlock.Laws.{get-view}
use kamino.Storage.RamBlock.Lww.{survivor, is_written, IsMerged}
use kamino.Storage.RamBlock.Transfer.{import_entry, import_entries}

-- The entries one after the other.
abbrev pub concatenated : List Entry → List ℕ
concatenated [] = []
concatenated (e ∷ es) = encoded e ++ concatenated es

-- A map after the entries are merged into it, each under the hash of its key.
abbrev pub merge_all : (List ℕ → ℕ) → List Entry → (ℕ → Option Entry) → ℕ → Option Entry
merge_all hash_key [] m = m
merge_all hash_key (e ∷ es) m =
    merge_all hash_key es
      λ j. if hash_key e.key == j then some (survivor (m (hash_key e.key)) e) else m j

module _ (deps : Deps) (hash_key : List ℕ → ℕ) where
  import_entry_lem :
      (r : RamBlock deps) (e : Entry)
      → AreSound deps r.tables
      → IsEncodable e
      → deps.allocated (max (encoded_len e) r.table_capacity) ≤ 2 ^ 32
      → (r' : RamBlock deps) × (import_entry deps hash_key r e ≡ (ok tt, r'))
        × IsMerged deps r (hash_key e.key) e r'
  unfolding import_entry
  import_entry_lem r e s h small =
      let k = hash_key e.key in
      let (r', done, p, same) = put_lem deps r k e s h small in
      elim (Bool-cases (is_written (view deps r.tables k) e)) [
        | inl written ↦ (
          r',
          ground (arith, get-view deps r k s),
          record { sound = p.sound; capacity = same; reads = λ j. ground (arith, p.views j) },
        )
        | inr refused ↦ (
          r,
          ground (arith, get-view deps r k s),
          record { sound = s; capacity = refl; reads = λ j. ground arith },
        )
      ]

  -- Importing encoded entries into a sound engine never fails, reads exactly the entries whatever
  -- follows, keeps the engine sound, and leaves each key with the youngest of what it had and what
  -- is imported under its hash, for entries that the codec takes and whose new tables stay within
  -- 4 GiB.
  pub import_entries_lem :
      (cap : ℕ) (es : List Entry) (r : RamBlock deps) (rest : List ℕ)
      → AreSound deps r.tables
      → r.table_capacity ≡ cap
      → All (λ e. IsEncodable e × (deps.allocated (max (encoded_len e) cap) ≤ 2 ^ 32)) es
      → (r' : RamBlock deps) × (import_entries deps hash_key (length es) r (concatenated es ++ rest)
          ≡ (ok tt, r'))
        × AreSound deps r'.tables
        × ((j : ℕ) → view deps r'.tables j ≡ merge_all hash_key es (view deps r.tables) j)
  unfolding import_entries
  import_entries_lem cap [] r rest s c fit = (r, refl, s, λ j. refl)
  import_entries_lem cap (e ∷ es) r rest s c fit =
      let (r1, done, m) = import_entry_lem r e s fit.0.0 (rw c fit.0.1) in
      let (r2, rest_done, sound, views) =
        import_entries_lem cap es r1 rest m.sound (m.capacity ∙ c) fit.1 in
      let read : decode (encoded e ++ (concatenated es ++ rest)) ≡ ok (e, encoded_len e) =
        decode-encoded e (concatenated es ++ rest) fit.0.0 in
      let left : drop (encoded_len e) (encoded e ++ (concatenated es ++ rest))
          ≡ concatenated es ++ rest =
        drop-append_eq (encoded_len e) (encoded e) (concatenated es ++ rest) (length-encoded e) in
      (
        r2,
        rw (append_assoc (encoded e) (concatenated es) rest, read, done, left) rest_done,
        sound,
        λ j. views j ∙ ap (λ v. merge_all hash_key es v j) (fun_ext m.reads),
      )
