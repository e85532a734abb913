-- ===== src/Storage/RamBlock/Reads.antt =====
-- `get`, `find_live` and `delete` of crates/kamino-storage/src/ramblock.rs.
use kamino.Prelude.{
  ℕ, zero, suc, ◌≡◌, ◌≢◌, refl, sym, ap, subst, true, List, [], ◌∷◌, none, some, arith, inl, inr,
  Option-cases, get_elem?, set, lookup, All,
}
use kamino.Storage.Deps.{Deps}
use kamino.Storage.Outcome.{ok}
use kamino.Storage.Entry.{Entry}
use kamino.Storage.Table.{Table}
use kamino.Storage.Table.Valid
use kamino.Storage.Table.Valid.{IsValid, entry_at-Stored}
use kamino.Storage.Table.Delete.{
  get-view, delete_lem, after_delete, view-after_delete, after_delete-IsValid,
}
use kamino.Storage.RamBlock.{rposition, find_live, delete_at, get_tables}
use kamino.Storage.RamBlock.Tables.{IsSound, states, view}

module _ (deps : Deps) where
  pub get_tables-view :
      (ts : List (Table deps)) (k : ℕ)
      → All (IsSound deps) ts
      → get_tables deps ts k ≡ ok (view deps ts k)
  unfolding get_tables view
  get_tables-view [] k h = refl
  get_tables-view (t ∷ ts) k h =
      ground (arith, get_tables-view ts k h.1, get-view deps t k h.0.valid, h.0.in_use)

  -- What `delete_at` leaves, at the table that `find_live` found.
  pub record Deleted (k : ℕ) (ts ts' : List (Table deps)) : Type 0 where
    pub sound : All (IsSound deps) ts'
    pub kept_states : states deps ts' ≡ states deps ts
    pub others : (j : ℕ) → k ≢ j → view deps ts' j ≡ view deps ts j

  pub find_live-none :
      (ts : List (Table deps)) (k : ℕ)
      → All (IsSound deps) ts
      → find_live deps ts k ≡ none
      → view deps ts k ≡ none
  unfolding find_live rposition view Valid.view
  find_live-none [] k s h = refl
  find_live-none (t ∷ ts) k s h = ground (arith, find_live-none ts k s.1, s.0.in_use)

  -- The table that `find_live` finds: the newest one with the key, which is what is read.
  pub record Found (ts : List (Table deps)) (k i : ℕ) : Type 0 where
    pub table : Table deps
    pub off : ℕ
    pub entry : Entry
    pub at : get_elem? ts i ≡ some table
    pub sound : IsSound deps table
    pub live : lookup k table.hkeys ≡ some off
    pub reads : view deps ts k ≡ some entry
    pub reads_table : Valid.view deps table k ≡ some entry

  Found-head :
      (t : Table deps) (ts : List (Table deps)) (k off : ℕ)
      → IsSound deps t
      → view deps ts k ≡ none
      → lookup k t.hkeys ≡ some off
      → Found (t ∷ ts) k 0
  unfolding view Valid.view
  Found-head t ts k off s n l =
      let st = s.valid.stored k off l in
      record {
        table = t;
        off = off;
        entry = st.entry;
        at = refl;
        sound = s;
        live = l;
        reads = ground (arith, entry_at-Stored t.memory off st);
        reads_table = ground (arith, entry_at-Stored t.memory off st);
      }

  Found-tail :
      (t : Table deps) (ts : List (Table deps)) (k i : ℕ) → Found ts k i → Found (t ∷ ts) k (suc i)
  unfolding view
  Found-tail t ts k i f = record {
    table = f.table;
    off = f.off;
    entry = f.entry;
    at = f.at;
    sound = f.sound;
    live = f.live;
    reads = ground (arith, f.reads);
    reads_table = f.reads_table;
  }

  pub find_live-some :
      (ts : List (Table deps)) (k i : ℕ)
      → All (IsSound deps) ts
      → find_live deps ts k ≡ some i
      → Found ts k i
  unfolding find_live rposition
  find_live-some [] k i s h = cc
  find_live-some (t ∷ ts) k i s h = elim (Option-cases (find_live deps ts k)) [
    | inr (j, later) ↦
        let e : i ≡ suc j = ground arith in
        rw e (Found-tail t ts k j (find_live-some ts k j s.1 later))
    | inl only ↦
        let (off, e, l) = here only in
        rw e (Found-head t ts k off s.0 (find_live-none ts k s.1 only) l)
  ]
    where
      here : find_live deps ts k ≡ none → (off : ℕ) × (i ≡ 0) × (lookup k t.hkeys ≡ some off)
      here only = elim (Option-cases (lookup k t.hkeys)) [
        | inl missing ↦ absurd (ground arith)
        | inr (off, l) ↦ (off, ground arith, l)
      ]

  Deleted-head :
      (t : Table deps) (ts : List (Table deps)) (k off : ℕ)
      → IsSound deps t
      → All (IsSound deps) ts
      → lookup k t.hkeys ≡ some off
      → Deleted k (t ∷ ts) (after_delete deps t k off ∷ ts)
  unfolding view
  Deleted-head t ts k off s ss l = record {
    sound = (
      record {
        valid = after_delete-IsValid deps t k off s.valid l;
        small = unfold after_delete in s.small;
        in_use = unfold after_delete in s.in_use;
      },
      ss,
    );
    kept_states = unfold after_delete in refl;
    others = λ j n. ground (arith, view-after_delete deps t k off j);
  }

  set-Deleted :
      (ts : List (Table deps)) (i k off : ℕ) (t : Table deps)
      → All (IsSound deps) ts
      → get_elem? ts i ≡ some t
      → lookup k t.hkeys ≡ some off
      → Deleted k ts (set ts i (after_delete deps t k off))
  unfolding view
  set-Deleted [] i k off t s h l = cc
  set-Deleted (u ∷ ts) zero k off t s h l =
      let e : t ≡ u = cc in
      subst (λ w. Deleted k (w ∷ ts) (after_delete deps t k off ∷ ts)) e
        (Deleted-head t ts k off (subst (IsSound deps) (sym e) s.0) s.1 l)
  set-Deleted (u ∷ ts) (suc i) k off t s h l =
      let d = set-Deleted ts i k off t s.1 h l in
      record {
        sound = (s.0, d.sound);
        kept_states = ap (◌∷◌ u.state) d.kept_states;
        others = λ j n. rw (d.others j n);
      }

  -- Deleting where `find_live` points: the call succeeds, and only that key may read otherwise.
  pub delete_at_lem :
      (ts : List (Table deps)) (k i : ℕ)
      → All (IsSound deps) ts
      → Found ts k i
      → (ts' : List (Table deps)) × (delete_at deps ts i k ≡ (ok true, ts')) × Deleted k ts ts'
  unfolding delete_at
  delete_at_lem ts k i s f = (
    set ts i (after_delete deps f.table k f.off),
    ground (arith, f.at, f.live, delete_lem deps f.table k f.sound.valid),
    set-Deleted ts i k f.off f.table s f.at f.live,
  )
