-- ===== src/Storage/Compaction.antt =====
-- crates/kamino-storage/src/compaction.rs: the live entries of a table, copied to a fresh one.
pub mod Copy
use kamino.Prelude.{Bool, true, false, ℕ, Option, none, some, max}
use kamino.Storage.Deps.{Deps}
use kamino.Storage.Outcome.{Error, Result, ok, err, panic}
use kamino.Storage.Table.{Table, with_capacity, append, inuse}
use kamino.Storage.Table.Scan.{Callback, scan}

module _ (deps : Deps) where
  -- The variables that the callback captures: the new table and the first error.
  pub record Copying : Type 0 where
    pub dst : Table deps
    pub error : Option Error

  -- `Ok(false)` is not looked at: an entry without room is dropped in silence.
  abbrev copied : Copying → Result Bool × Table deps → Result Bool × Copying
  copied c (ok _, dst) = (ok true, record c { dst = dst })
  copied c (err e, dst) = (ok false, record { dst = dst; error = some e })
  copied c (panic, dst) = (panic, record c { dst = dst })

  unfoldable pub copy : Callback Copying
  copy c hk entry = copied c (append deps c.dst hk entry)

  abbrev finish : Result Bool × Copying → Result (Table deps)
  finish (ok _, c) = elim c.error [ none ↦ ok c.dst | some e ↦ err e ]
  finish (err e, c) = err e
  finish (panic, c) = panic

  unfoldable pub compact_table : Table deps → ℕ → Result (Table deps)
  unfolding inuse
  compact_table src capacity =
      let live = inuse deps src in
      let cap = max capacity live in
      finish (scan deps copy src (record { dst = with_capacity deps cap; error = none }))
