-- ===== src/Storage/RamBlock/Put.antt =====
-- `put` of crates/kamino-storage/src/ramblock.rs.
use kamino.Prelude.{
  ℕ, ◌≤◌, ◌^◌, ◌≡◌, refl, sym, ap, subst, Bool, true, List, [], ◌∷◌, ◌++◌, some, arith, max, All,
  if◌then◌else◌, ◌==◌,
}
use kamino.Storage.Deps.{Deps}
use kamino.Storage.Outcome.{Result, ok}
use kamino.Storage.Entry.{Entry, encoded_len, IsEncodable}
use kamino.Storage.Table.{TableState, read_write, Table, u32_max}
use kamino.Storage.Table
use kamino.Storage.Table.Valid
use kamino.Storage.Table.Append.{after_append, append_lem, view-after_append}
use kamino.Storage.Table.Append.Keeps.{after_append-IsValid}
use kamino.Storage.RamBlock.{append_last, RamBlock, put}
use kamino.Storage.RamBlock.Tables.{IsSound, AreSound, states, view, newer, IsShaped}
use kamino.Storage.RamBlock.Writable.{drop_sealed_lem, IsReady, ensure_writable_for_lem}

module _ (deps : Deps) where
  append_last-snoc :
      (init : List (Table deps)) (t t' : Table deps) (k : ℕ) (e : Entry) {r : Result Bool}
      → Table.append deps t k e ≡ (r, t')
      → append_last deps (init ++ t ∷ []) k e ≡ (r, init ++ t' ∷ [])
  unfolding append_last
  append_last-snoc [] t t' k e h = rw h
  append_last-snoc (u ∷ []) t t' k e h = rw h
  append_last-snoc (u ∷ w ∷ init) t t' k e h = rw (append_last-snoc (w ∷ init) t t' k e h)

  view-snoc :
      (init : List (Table deps)) (t : Table deps) (j : ℕ)
      → view deps (init ++ t ∷ []) j ≡ newer (Valid.view deps t j) (view deps init j)
  unfolding view
  view-snoc [] t j = ground arith
  view-snoc (u ∷ init) t j = ground (arith, view-snoc init t j)

  IsSound-snoc :
      (init : List (Table deps)) (t : Table deps)
      → All (IsSound deps) init
      → IsSound deps t
      → All (IsSound deps) (init ++ t ∷ [])
  IsSound-snoc [] t s h = (h, tt)
  IsSound-snoc (u ∷ init) t s h = (s.0, IsSound-snoc init t s.1 h)

  states-snoc :
      (init : List (Table deps)) (t t' : Table deps)
      → t.state ≡ t'.state
      → states deps (init ++ t ∷ []) ≡ states deps (init ++ t' ∷ [])
  states-snoc [] t t' h = ap (λ s. s ∷ []) h
  states-snoc (u ∷ init) t t' h = ap (◌∷◌ u.state) (states-snoc init t t' h)

  -- The tables after a `put`: the key reads the entry, and every other key reads what it did.
  pub record IsPut (ts : List (Table deps)) (k : ℕ) (e : Entry) (ts' : List (Table deps))
      : Type 0 where
    pub sound : AreSound deps ts'
    pub views : (j : ℕ) → view deps ts' j ≡ (if k == j then some e else view deps ts j)

  module _ (cap k : ℕ) (e : Entry) (h : IsEncodable e) (ts : List (Table deps)) where
    head_small :
        (init : List (Table deps)) (head : Table deps)
        → IsReady deps cap (encoded_len e) ts init head
        → head.offset ≤ u32_max
    unfolding encoded_len
    head_small init head r = omega (arith, r.room, r.sound_head.small)

    append_head :
        (init : List (Table deps)) (head : Table deps)
        → IsReady deps cap (encoded_len e) ts init head
        → append_last deps (init ++ head ∷ []) k e
          ≡ (ok true, init ++ after_append deps head k e ∷ [])
    append_head init head r =
        append_last-snoc init head (after_append deps head k e) k e
          (append_lem deps head k e r.sound_head.valid h (head_small init head r) r.room)

    IsPut-head :
        (init : List (Table deps)) (head : Table deps)
        → IsReady deps cap (encoded_len e) ts init head
        → IsPut ts k e (init ++ after_append deps head k e ∷ [])
    IsPut-head init head r = record {
      sound = record {
        sound = IsSound-snoc init (after_append deps head k e) r.sound (record {
          valid =
              after_append-IsValid deps head k e r.sound_head.valid h (head_small init head r)
                r.room;
          small = unfold after_append in r.sound_head.small;
          in_use = unfold after_append in r.sound_head.in_use;
        });
        shaped =
            subst IsShaped
              (states-snoc init head (after_append deps head k e) (unfold after_append in refl))
              r.shaped;
      };
      views = λ j.
          rw (view-snoc init (after_append deps head k e) j)
            (ground (arith, view-after_append deps head k j e r.sound_head.valid h, r.views j));
    }

  -- On sound tables a `put` of an entry that the codec takes succeeds, whatever the tables hold and
  -- however full they are; the key then reads the entry, and every other key reads what it did.
  pub put_lem :
      (r : RamBlock deps) (k : ℕ) (e : Entry)
      → AreSound deps r.tables
      → IsEncodable e
      → deps.allocated (max (encoded_len e) r.table_capacity) ≤ 2 ^ 32
      → (r' : RamBlock deps) × (put deps r k e ≡ (ok tt, r'))
        × IsPut r.tables k e r'.tables
        × (r'.table_capacity ≡ r.table_capacity)
  unfolding put
  put_lem r k e s h small =
      let (b, ts, dropped, d) = drop_sealed_lem deps r.tables k s.sound in
      let (init, head, ready, i) =
        ensure_writable_for_lem deps r.table_capacity (encoded_len e) ts d.sound
          (subst IsShaped (sym d.kept_states) s.shaped) small in
      let p = IsPut-head r.table_capacity k e h ts init head i in
      (
        record r { tables = init ++ after_append deps head k e ∷ [] },
        rw (dropped, ready, append_head r.table_capacity k e h ts init head i),
        record { sound = p.sound; views = λ j. ground (arith, p.views j, d.others j) },
        refl,
      )
