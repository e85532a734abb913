-- ===== src/Storage/RamBlock/Lww.antt =====
-- `put_lww` of crates/kamino-storage/src/engine.rs over the engine: the last write wins.
use kamino.Prelude.{
  ℕ, ◌≤◌, ◌^◌, ◌≡◌, refl, Bool, true, false, Option, none, some, arith, inl, inr, Bool-cases, max,
  if◌then◌else◌, ◌==◌,
}
use kamino.Prelude.Int.{leb_ℤ, ◌<ℤ◌}
use kamino.Storage.Deps.{Deps}
use kamino.Storage.Outcome.{ok}
use kamino.Storage.Entry.{Entry, encoded_len, IsEncodable}
use kamino.Storage.RamBlock.{RamBlock, get, put_lww}
use kamino.Storage.RamBlock.Tables.{AreSound, view}
use kamino.Storage.RamBlock.Put.{put_lem}
use kamino.Storage.RamBlock.Laws.{get-view}

-- The entry that survives: the one that is there, unless the new one is younger.
abbrev pub survivor : Option Entry → Entry → Entry
survivor none e = e
survivor (some old) e = if leb_ℤ e.timestamp_nanos old.timestamp_nanos then old else e

abbrev pub is_written : Option Entry → Entry → Bool
is_written none e = true
is_written (some old) e = if leb_ℤ e.timestamp_nanos old.timestamp_nanos then false else true

module _ (deps : Deps) where
  -- What `put_lww` leaves.
  pub record IsMerged (r : RamBlock deps) (k : ℕ) (e : Entry) (r' : RamBlock deps) : Type 0 where
    pub sound : AreSound deps r'.tables
    pub capacity : r'.table_capacity ≡ r.table_capacity
    pub reads :
        (j : ℕ)
        → view deps r'.tables j
          ≡ (if k == j then some (survivor (view deps r.tables k) e) else view deps r.tables j)

  -- On a sound engine whose new tables stay within 4 GiB, `put_lww` of an entry that the codec
  -- takes writes it exactly when the key has no entry or an older one and answers whether it did;
  -- the key then reads the younger of the two, every other key what it did before, and the tables
  -- stay sound.
  pub put_lww_lem :
      (r : RamBlock deps) (k : ℕ) (e : Entry)
      → AreSound deps r.tables
      → IsEncodable e
      → deps.allocated (max (encoded_len e) r.table_capacity) ≤ 2 ^ 32
      → (r' : RamBlock deps) × (put_lww deps r k e ≡ (ok (is_written (view deps r.tables k) e), r'))
        × IsMerged r k e r'
  unfolding put_lww
  put_lww_lem r k e s h small =
      let (r', done, p, same) = put_lem deps r k e s h small in
      elim (Bool-cases (is_written (view deps r.tables k) e)) [
        | inl written ↦ (
          r',
          ground (arith, get-view deps r k s),
          record { sound = p.sound; capacity = same; reads = λ j. ground (arith, p.views j) },
        )
        | inr refused ↦ (
          r,
          ground (arith, get-view deps r k s),
          record { sound = s; capacity = refl; reads = λ j. ground arith },
        )
      ]

  -- On a sound engine whose new tables stay within 4 GiB, two `put_lww` of one key, of entries
  -- that the codec takes and of which one is older, leave the same contents at every key whichever
  -- of the two comes first.
  pub put_lww_converges :
      (r : RamBlock deps) (k : ℕ) (a b : Entry)
      → AreSound deps r.tables
      → IsEncodable a
      → IsEncodable b
      → a.timestamp_nanos <ℤ b.timestamp_nanos
      → deps.allocated (max (encoded_len a) r.table_capacity) ≤ 2 ^ 32
      → deps.allocated (max (encoded_len b) r.table_capacity) ≤ 2 ^ 32
      → (j : ℕ)
      → get deps (put_lww deps (put_lww deps r k a).1 k b).1 j
        ≡ get deps (put_lww deps (put_lww deps r k b).1 k a).1 j
  put_lww_converges r k a b s ha hb older fa fb j =
      let (ra, ea, ma) = put_lww_lem r k a s ha fa in
      let (rab, eab, mab) = put_lww_lem ra k b ma.sound hb (rw ma.capacity fb) in
      let (rb, eb, mb) = put_lww_lem r k b s hb fb in
      let (rba, eba, mba) = put_lww_lem rb k a mb.sound ha (rw mb.capacity fa) in
      rw (ea, eb, eab, eba, get-view deps rab j mab.sound, get-view deps rba j mba.sound)
        (ground (arith, mab.reads j, mba.reads j, ma.reads j, mb.reads j, ma.reads k, mb.reads k))
