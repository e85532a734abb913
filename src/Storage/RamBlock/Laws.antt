-- ===== src/Storage/RamBlock/Laws.antt =====
-- The engine of crates/kamino-storage/src/ramblock.rs as a map: what a read gives after a write.
use kamino.Prelude.{
  ℕ, ◌≤◌, ◌<◌, ◌^◌, ◌≡◌, ◌≢◌, ◌↔◌, refl, ◌∙◌, sym, ap, subst, Bool, true, false, [], ◌∷◌, none,
  some, arith, inl, inr, Option-cases, max, if◌then◌else◌, ◌==◌,
}
use kamino.Storage.Deps.{Deps}
use kamino.Storage.Outcome.{ok}
use kamino.Storage.Entry.{Entry, encoded_len, IsEncodable}
use kamino.Storage.Table.{Table, with_capacity}
use kamino.Storage.Table.Valid
use kamino.Storage.Table.Valid.{with_capacity-IsValid, view-with_capacity}
use kamino.Storage.RamBlock.{RamBlock, new, get, put, delete, find_live}
use kamino.Storage.RamBlock.Tables.{AreSound, view, IsShaped}
use kamino.Storage.RamBlock.Reads.{get_tables-view, find_live-none, find_live-some, delete_at_lem}
use kamino.Storage.RamBlock.Put.{put_lem}

module _ (deps : Deps) where
  pub get-view :
      (r : RamBlock deps) (k : ℕ)
      → AreSound deps r.tables
      → get deps r k ≡ ok (view deps r.tables k)
  unfolding get
  get-view r k s = get_tables-view deps r.tables k s.sound

  -- After a `put` of an entry that the codec takes, on a sound engine whose new tables stay within
  -- 4 GiB, the call succeeds, a read of the key gives the entry, a read of any other key gives
  -- what it gave before, and the tables stay sound.
  pub get-put :
      (r : RamBlock deps) (k : ℕ) (e : Entry)
      → AreSound deps r.tables
      → IsEncodable e
      → deps.allocated (max (encoded_len e) r.table_capacity) ≤ 2 ^ 32
      → (r' : RamBlock deps) × (put deps r k e ≡ (ok tt, r'))
        × AreSound deps r'.tables
        × ((j : ℕ) → get deps r' j ≡ (if k == j then ok (some e) else get deps r j))
  get-put r k e s h small =
      let (r', done, p, _) = put_lem deps r k e s h small in
      (r', done, p.sound, λ j. ground (arith, get-view r' j p.sound, get-view r j s, p.views j))

  -- `delete` on a sound engine never fails, answers false exactly when the key reads nothing,
  -- keeps the tables sound, and changes what no other key reads.
  pub delete_others :
      (r : RamBlock deps) (k : ℕ)
      → AreSound deps r.tables
      → (b : Bool) × (r' : RamBlock deps) × (delete deps r k ≡ (ok b, r'))
        × AreSound deps r'.tables
        × ((b ≡ false) ↔ (get deps r k ≡ ok none))
        × ((j : ℕ) → k ≢ j → get deps r' j ≡ get deps r j)
  unfolding delete
  delete_others r k s = elim (Option-cases (find_live deps r.tables k)) [
    | inl missing ↦
        let none' = find_live-none deps r.tables k s.sound missing in
        (false, r, ground arith, s, ground (arith, get-view r k s), λ j n. refl)
    | inr (i, live) ↦
        let f = find_live-some deps r.tables k i s.sound live in
        let (ts', done, d) = delete_at_lem deps r.tables k i s.sound f in
        let sound : AreSound deps ts' = record {
          sound = d.sound;
          shaped = subst IsShaped (sym d.kept_states) s.shaped;
        } in
        (
          true,
          record r { tables = ts' },
          ground arith,
          sound,
          ground (arith, get-view r k s, f.reads),
          λ j n.
              ground
                (arith, get-view (record r { tables = ts' }) j sound, get-view r j s, d.others j n),
        )
  ]

  empty_view : (t : Table deps) (k : ℕ) → Valid.view deps t k ≡ none → view deps (t ∷ []) k ≡ none
  unfolding view
  empty_view t k h = h

  -- A new engine is sound and reads nothing; a capacity of zero panics.
  pub new_lem :
      (cap : ℕ) (ratio : deps.F64)
      → 0 < cap
      → deps.allocated cap ≤ 2 ^ 32
      → (r : RamBlock deps) × (new deps cap ratio ≡ ok r)
        × AreSound deps r.tables
        × ((k : ℕ) → get deps r k ≡ ok none)
  unfolding new get
  new_lem cap ratio pos small =
      let t = with_capacity deps cap in
      let sound : AreSound deps (t ∷ []) = record {
        sound = (
          record {
            valid = with_capacity-IsValid deps cap;
            small = unfold with_capacity in small;
            in_use = unfold with_capacity in λ e. cc;
          },
          tt,
        );
        shaped = tt;
      } in
      (
        record { tables = t ∷ []; table_capacity = cap; max_garbage_ratio = ratio },
        ground arith,
        sound,
        λ k.
            get_tables-view deps (t ∷ []) k sound.sound
            ∙ ap ok (empty_view t k (view-with_capacity deps cap k)),
      )
