-- ===== src/Storage/RamBlock/Writable.antt =====
-- `ensure_writable_for` of crates/kamino-storage/src/ramblock.rs, and the first step of `put`.
use kamino.Prelude.{
  ℕ, ◌+◌, ◌≤◌, ◌^◌, ◌≡◌, ◌≢◌, ◌⊎◌, refl, ◌∙◌, ap, Bool, true, false, List, [], ◌∷◌, ◌++◌, some,
  arith, inl, inr, Option-cases, Bool-cases, max, All, leb,
}
use kamino.Storage.Deps.{Deps}
use kamino.Storage.Outcome.{ok}
use kamino.Storage.Table.{TableState, read_write, read_only, recycled, Table, with_capacity, seal}
use kamino.Storage.Table.Valid
use kamino.Storage.Table.Valid.{IsValid, with_capacity-IsValid, view-with_capacity}
use kamino.Storage.Table.State.{
  sealed, seal_lem, with_state-IsValid, view-with_state, sealed-ne, sealed-ne-recycled,
}
use kamino.Storage.RamBlock.{rposition, ensure_writable_for, drop_sealed, find_live}
use kamino.Storage.RamBlock.Tables.{IsSound, states, view, newer, IsShaped}
use kamino.Storage.RamBlock.Reads.{Deleted, Found, find_live-some, delete_at_lem}

state_cases : (s : TableState) → (s ≡ read_only) ⊎ (s ≢ read_only)
state_cases read_write = inr (λ e. cc)
state_cases read_only = inl refl
state_cases recycled = inr (λ e. cc)

writable_cases : (s : TableState) → (s ≡ read_write) ⊎ (s ≢ read_write)
writable_cases read_write = inl refl
writable_cases read_only = inr (λ e. cc)
writable_cases recycled = inr (λ e. cc)

IsShaped-cons :
    (s : TableState) (ss : List TableState) → s ≢ read_write → IsShaped ss → IsShaped (s ∷ ss)
IsShaped-cons s [] n h = tt
IsShaped-cons s (s' ∷ ss) n h = (n, h)

module _ (deps : Deps) where
  pub Deleted-refl : (k : ℕ) (ts : List (Table deps)) → All (IsSound deps) ts → Deleted deps k ts ts
  Deleted-refl k ts s = record { sound = s; kept_states = refl; others = λ j n. refl }

  -- The first step of `put` succeeds and touches no other key.
  pub drop_sealed_lem :
      (ts : List (Table deps)) (k : ℕ)
      → All (IsSound deps) ts
      → (b : Bool) × (ts' : List (Table deps)) × (drop_sealed deps ts k ≡ (ok b, ts'))
        × Deleted deps k ts ts'
  unfolding drop_sealed
  drop_sealed_lem ts k s = elim (Option-cases (find_live deps ts k)) [
    | inl missing ↦ (false, ts, ground arith, Deleted-refl k ts s)
    | inr (i, live) ↦ drop_at i live (find_live-some deps ts k i s live)
  ]
    where
      drop_at :
          (i : ℕ)
          → find_live deps ts k ≡ some i
          → Found deps ts k i
          → (b : Bool) × (ts' : List (Table deps)) × (drop_sealed deps ts k ≡ (ok b, ts'))
            × Deleted deps k ts ts'
      drop_at i live f =
          let (ts', done, d) = delete_at_lem deps ts k i s f in
          elim (state_cases f.table.state) [
            | inl sealed ↦ (true, ts', ground (arith, f.at), d)
            | inr open' ↦ (false, ts, ground (arith, f.at), Deleted-refl k ts s)
          ]

  module _ (cap need : ℕ) where
    ensure-cons :
        (t : Table deps) (ts : List (Table deps))
        → t.state ≢ read_write
        → ensure_writable_for deps cap need (t ∷ ts) ≡ t ∷ ensure_writable_for deps cap need ts
    unfolding ensure_writable_for rposition
    ensure-cons t ts h = ground arith

    -- The tables with a last one that has room, which read as before.
    pub record IsReady (ts init : List (Table deps)) (head : Table deps) : Type 0 where
      pub sound : All (IsSound deps) init
      pub sound_head : IsSound deps head
      pub room : head.offset + need ≤ head.capacity
      pub shaped : IsShaped (states deps (init ++ head ∷ []))
      pub views : (j : ℕ) → newer (Valid.view deps head j) (view deps init j) ≡ view deps ts j

    fresh_room :
        deps.allocated (max need cap) ≤ 2 ^ 32
        → (with_capacity deps (max need cap)).offset + need
          ≤ (with_capacity deps (max need cap)).capacity
    unfolding with_capacity
    fresh_room small = omega (arith, deps.le-allocated (max need cap))

    fresh-IsSound :
        deps.allocated (max need cap) ≤ 2 ^ 32 → IsSound deps (with_capacity deps (max need cap))
    fresh-IsSound small = record {
      valid = with_capacity-IsValid deps (max need cap);
      small = unfold with_capacity in small;
      in_use = unfold with_capacity in λ e. cc;
    }

    pub seal-IsSound : (t : Table deps) → IsSound deps t → IsSound deps (seal deps t)
    seal-IsSound t s = rw (seal_lem deps t) (record {
      valid = with_state-IsValid deps t (sealed t.state) s.valid;
      small = s.small;
      in_use = sealed-ne-recycled deps t.state s.in_use;
    })

    IsReady-cons :
        (t : Table deps) (ts init : List (Table deps)) (head : Table deps)
        → IsSound deps t
        → t.state ≢ read_write
        → IsReady ts init head
        → IsReady (t ∷ ts) (t ∷ init) head
    unfolding view
    IsReady-cons t ts init head s n r = record {
      sound = (s, r.sound);
      sound_head = r.sound_head;
      room = r.room;
      shaped = IsShaped-cons t.state (states deps (init ++ head ∷ [])) n r.shaped;
      views = λ j. ground (arith, r.views j);
    }

    IsReady-fresh :
        deps.allocated (max need cap) ≤ 2 ^ 32 → IsReady [] [] (with_capacity deps (max need cap))
    unfolding view
    IsReady-fresh small = record {
      sound = tt;
      sound_head = fresh-IsSound small;
      room = fresh_room small;
      shaped = tt;
      views = λ j. rw (view-with_capacity deps (max need cap) j) refl;
    }

    IsReady-same :
        (t : Table deps) → IsSound deps t → t.offset + need ≤ t.capacity → IsReady (t ∷ []) [] t
    unfolding view
    IsReady-same t s room = record {
      sound = tt;
      sound_head = s;
      room = room;
      shaped = tt;
      views = λ j. ground arith;
    }

    IsReady-sealed :
        (t : Table deps)
        → IsSound deps t
        → deps.allocated (max need cap) ≤ 2 ^ 32
        → IsReady (t ∷ []) (seal deps t ∷ []) (with_capacity deps (max need cap))
    unfolding view
    IsReady-sealed t s small = record {
      sound = (seal-IsSound t s, tt);
      sound_head = fresh-IsSound small;
      room = fresh_room small;
      shaped = (rw (seal_lem deps t) (sealed-ne deps t.state), tt);
      views = λ j.
          rw (view-with_capacity deps (max need cap) j, seal_lem deps t)
            (ground (arith, view-with_state deps t (sealed t.state) j));
    }

    abbrev pub Ensured : List (Table deps) → Type 0
    Ensured ts =
        (init : List (Table deps)) × (head : Table deps) × (ensure_writable_for deps cap need ts
          ≡ init ++ head ∷ [])
        × IsReady ts init head

    Ensured-last :
        (t : Table deps)
        → IsSound deps t
        → t.state ≡ read_write
        → deps.allocated (max need cap) ≤ 2 ^ 32
        → Ensured (t ∷ [])
    unfolding ensure_writable_for rposition
    Ensured-last t s e small = elim (Bool-cases (leb (t.offset + need) t.capacity)) [
      | inl room ↦ ([], t, ground arith, IsReady-same t s (ground arith))
      | inr full ↦ (
        seal deps t ∷ [],
        with_capacity deps (max need cap),
        ground arith,
        IsReady-sealed t s small,
      )
    ]

    Ensured-cons :
        (t : Table deps) (ts : List (Table deps))
        → IsSound deps t
        → t.state ≢ read_write
        → Ensured ts
        → Ensured (t ∷ ts)
    Ensured-cons t ts s n (init, head, e, r) =
        (t ∷ init, head, ensure-cons t ts n ∙ ap (◌∷◌ t) e, IsReady-cons t ts init head s n r)

    Ensured-nil : deps.allocated (max need cap) ≤ 2 ^ 32 → Ensured []
    unfolding ensure_writable_for rposition
    Ensured-nil small = ([], with_capacity deps (max need cap), refl, IsReady-fresh small)

    -- After `ensure_writable_for` the last table has room for the entry, and nothing reads
    -- otherwise.
    pub ensure_writable_for_lem :
        (ts : List (Table deps))
        → All (IsSound deps) ts
        → IsShaped (states deps ts)
        → deps.allocated (max need cap) ≤ 2 ^ 32
        → Ensured ts
    ensure_writable_for_lem [] s sh small = Ensured-nil small
    ensure_writable_for_lem (t ∷ []) s sh small = elim (writable_cases t.state) [
      | inl e ↦ Ensured-last t s.0 e small
      | inr n ↦ Ensured-cons t [] s.0 n (Ensured-nil small)
    ]
    ensure_writable_for_lem (t ∷ u ∷ ts) s sh small =
        Ensured-cons t (u ∷ ts) s.0 sh.0 (ensure_writable_for_lem (u ∷ ts) s.1 sh.1 small)
