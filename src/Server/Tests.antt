-- ===== src/Server/Tests.antt =====
-- Small runs of the server crate, and the theorems about it at concrete inputs.
use kamino.Prelude.{
  some, ℕ, zero, suc, ◌+◌, ◌≡◌, ◌⊎◌, refl, Bool, true, List, [], ◌∷◌, arith, All, length,
}
use kamino.Prelude.Int.{pos, ◌<ℤ◌}
use kamino.Protocol.Frame.{simple_string, error, integer}
use kamino.Server.Replication.{
  backup_error, aggregate, aggregate_from, count_reply, default, Reply, replied, failed, i64_max,
  TimestampSource, new, exchange, candidate, forward_all, replicate,
}
use kamino.Server.Replication.Stamps.{Run, started, exchanged, issue, exchange-later}
use kamino.Server.Replication.Quorum.{Tally, replicate-counts}

-- The source after a stamp was issued at wall time 5.
abbrev after_first : TimestampSource
after_first = (exchange new (pos 0) (pos 5) true true).1

first-Run : Run after_first (issue (exchange new (pos 0) (pos 5) true true).0 [])
unfolding new
first-Run = exchanged (pos 0) (pos 5) true true (λ e. refl) (omega arith) started

exchange-later_example :
    All
      (λ u. (u <ℤ pos 6) ⊎ (pos 6 ≡ i64_max))
      (issue (exchange new (pos 0) (pos 5) true true).0 [])
unfolding new exchange candidate
exchange-later_example =
    exchange-later after_first (issue (exchange new (pos 0) (pos 5) true true).0 []) (pos 5) (pos 2)
      (pos 6) true true first-Run (λ e. refl) (omega arith) refl

-- A cluster of four backups: a count, an error, none, and another text than `OK`.
abbrev forward : ℕ → Bool → Reply
forward addr cmd = elim addr [
  | zero ↦ replied (integer (pos 1))
  | suc zero ↦ replied (error [])
  | suc (suc zero) ↦ failed []
  | suc (suc (suc _)) ↦ replied (simple_string (79 ∷ []))
]

abbrev backups : List ℕ
backups = 0 ∷ 1 ∷ 2 ∷ 3 ∷ []

replicate-counts_example :
    Tally
      (forward_all forward backups true)
      (replicate forward backups true).acks
      (replicate forward backups true).failures
      (replicate forward backups true).first_error
    × ((replicate forward backups true).acks + (replicate forward backups true).failures
        ≡ length backups)
replicate-counts_example = replicate-counts forward backups true (omega arith)

-- The first reason is that of the second backup.
replicate_runs :
    ((replicate forward backups true).acks ≡ 1)
    × ((replicate forward backups true).failures ≡ 3)
    × ((replicate forward backups true).first_error ≡ some (backup_error []))
unfolding replicate aggregate aggregate_from count_reply default forward_all
replicate_runs = (refl, refl, refl)
