-- ===== src/Storage/RamBlock/Compact.antt =====
-- `compact` of crates/kamino-storage/src/ramblock.rs: every sealed table with too much garbage is
-- replaced by its compaction.
use kamino.Prelude.{
  ℕ, ◌+◌, ◌-◌, ◌≤◌, ◌^◌, ◌≡◌, refl, sym, ◌∙◌, Bool, true, false, not, ◌||◌, List, [], ◌∷◌, arith,
  max, inl, inr, Bool-cases, if◌then◌else◌, subst, All,
}
use kamino.Storage.Deps.{Deps}
use kamino.Storage.Outcome.{Result, ok, err, panic, ◌>>=◌}
use kamino.Storage.Table.{TableState, read_only, Table, inuse, garbage_ratio, seal}
use kamino.Storage.Table.Valid
use kamino.Storage.Table.State.{sealed, seal_lem, view-with_state, with_state-IsValid}
use kamino.Storage.Compaction.{compact_table}
use kamino.Storage.Compaction.Copy.{compact_table_lem}
use kamino.Storage.RamBlock.{RamBlock}
use kamino.Storage.RamBlock.Tables.{IsSound, AreSound, states, view, IsShaped}

abbrev is_read_only : TableState → Bool
is_read_only read_only = true
is_read_only _ = false

module _ (deps : Deps) where
  abbrev add_reclaimed : ℕ → Table deps → ℕ × List (Table deps) → Result (ℕ × List (Table deps))
  add_reclaimed reclaimed t (total, ts) = ok (reclaimed + total, t ∷ ts)

  -- Both loops of `compact`: the bytes reclaimed, and the tables with the replacements. An error
  -- comes before any table is replaced.
  unfoldable pub compact_tables : deps.F64 → List (Table deps) → Result (ℕ × List (Table deps))
  compact_tables ratio [] = ok (0, [])
  compact_tables ratio (t ∷ ts) =
      let rest = compact_tables ratio ts in
      if not (is_read_only t.state) || deps.f64_le (garbage_ratio deps t) ratio
      then rest >>= add_reclaimed 0 t
      else (compact_table deps t t.capacity >>= λ new.
          rest >>= add_reclaimed (inuse deps t + t.garbage_bytes - inuse deps new) (seal deps new))

  abbrev replaced : RamBlock deps → Result (ℕ × List (Table deps)) → Result ℕ × RamBlock deps
  replaced r (ok (reclaimed, ts)) = (ok reclaimed, record r { tables = ts })
  replaced r (err e) = (err e, r)
  replaced r panic = (panic, r)

  unfoldable pub compact : RamBlock deps → Result ℕ × RamBlock deps
  compact r = replaced r (compact_tables r.max_garbage_ratio r.tables)

  -- A list of tables that stands for the same map, with the same states.
  pub record IsCompacted (ts ts' : List (Table deps)) : Type 0 where
    pub sound : All (IsSound deps) ts'
    pub same_states : states deps ts' ≡ states deps ts
    pub views : (k : ℕ) → view deps ts' k ≡ view deps ts k

  IsCompacted-cons :
      (t t' : Table deps) (ts ts' : List (Table deps))
      → IsSound deps t'
      → t'.state ≡ t.state
      → ((k : ℕ) → Valid.view deps t' k ≡ Valid.view deps t k)
      → IsCompacted ts ts'
      → IsCompacted (t ∷ ts) (t' ∷ ts')
  unfolding view
  IsCompacted-cons t t' ts ts' s e v c = record {
    sound = (s, c.sound);
    same_states = rw (e, c.same_states) refl;
    views = λ k. ground (arith, c.views k, v k);
  }

  module _ (fit : (n : ℕ) → n ≤ 2 ^ 32 → deps.allocated n ≤ 2 ^ 32) where
    -- The compaction of a sound sealed table, sealed.
    compacted :
        (t : Table deps)
        → IsSound deps t
        → t.state ≡ read_only
        → (new : Table deps) × (compact_table deps t t.capacity ≡ ok new)
          × IsSound deps (seal deps new)
          × ((seal deps new).state ≡ t.state)
          × ((k : ℕ) → Valid.view deps (seal deps new) k ≡ Valid.view deps t k)
    compacted t s e =
        let small : max t.capacity t.live_bytes ≤ 2 ^ 32 =
          omega (arith, s.small, s.valid.within, s.valid.accounted) in
        let (new, done, valid, views, _, _, writable, fits) =
          compact_table_lem deps t t.capacity s.valid (fit _ small) in
        let st : (seal deps new).state ≡ read_only = rw (seal_lem deps new, writable) refl in
        (
          new,
          done,
          record {
            valid = rw (seal_lem deps new) (with_state-IsValid deps new (sealed new.state) valid);
            small = rw (seal_lem deps new) fits;
            in_use = λ q. ground (arith, st);
          },
          st ∙ sym e,
          λ k. rw (seal_lem deps new) (view-with_state deps new (sealed new.state) k ∙ views k),
        )

    compact_tables_lem :
        (ratio : deps.F64) (ts : List (Table deps))
        → All (IsSound deps) ts
        → (n : ℕ) × (ts' : List (Table deps)) × (compact_tables ratio ts ≡ ok (n, ts'))
          × IsCompacted ts ts'
    unfolding compact_tables
    compact_tables_lem ratio [] s =
        (0, [], refl, record { sound = tt; same_states = refl; views = λ k. refl })
    compact_tables_lem ratio (t ∷ ts) s =
        let (n, ts', done, c) = compact_tables_lem ratio ts s.1 in
        let kept = IsCompacted-cons t t ts ts' s.0 refl (λ k. refl) c in
        elim (Bool-cases (is_read_only t.state)) [
          | inr open' ↦ (n, t ∷ ts', rw (open', done) (ground arith), kept)
          | inl closed ↦ elim (Bool-cases (deps.f64_le (garbage_ratio deps t) ratio)) [
            | inl clean ↦ (n, t ∷ ts', rw (closed, clean, done) (ground arith), kept)
            | inr dirty ↦
                let (new, made, sound, st, views) = compacted t s.0 (ground arith) in
                (
                  inuse deps t + t.garbage_bytes - inuse deps new + n,
                  seal deps new ∷ ts',
                  rw (closed, dirty, made, done) (ground arith),
                  IsCompacted-cons t (seal deps new) ts ts' sound st views c,
                )
          ]
        ]

    -- Compacting a sound engine never fails, keeps it sound and changes what no key reads, where
    -- an allocation of at most 4 GiB gets at most 4 GiB.
    pub compact_lem :
        (r : RamBlock deps)
        → AreSound deps r.tables
        → (n : ℕ) × (r' : RamBlock deps) × (compact r ≡ (ok n, r'))
          × AreSound deps r'.tables
          × ((k : ℕ) → view deps r'.tables k ≡ view deps r.tables k)
    unfolding compact
    compact_lem r s =
        let (n, ts', done, c) = compact_tables_lem r.max_garbage_ratio r.tables s.sound in
        (
          n,
          record r { tables = ts' },
          rw done refl,
          record { sound = c.sound; shaped = subst IsShaped (sym c.same_states) s.shaped },
          c.views,
        )
