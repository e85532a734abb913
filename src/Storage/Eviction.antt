-- ===== src/Storage/Eviction.antt =====
-- crates/kamino-storage/src/eviction.rs: one pass of each sweeper, and the sampled eviction. The
-- fragment forwards to the engine under its lock, taken for each call. `choose_multiple` is the
-- random sample of the `rand` crate.
pub mod Sample
use kamino.Prelude.{
  ℕ, zero, suc, ◌+◌, ◌-◌, ◌*◌, ◌^◌, Bool, true, false, not, ◌&&◌, List, [], ◌∷◌, ◌++◌, Option, none,
  some, ltb, ◌==◌, if◌then◌else◌, length, min,
}
use kamino.Prelude.Int.{ℤ, pos, negsuc, pos_part, neg_part, leb_ℤ}
use kamino.Storage.Deps.{Deps}
use kamino.Storage.Outcome.{Error, Result, ok, err, panic}
use kamino.Storage.Entry.{Entry, is_expired}
use kamino.Storage.Table.Scan.{Callback}
use kamino.Storage.RamBlock.{RamBlock, delete, scan_tables}

abbrev pub ttl_sample_size : ℕ
ttl_sample_size = 20

abbrev i64_max : ℕ
i64_max = 2 ^ 63 - 1

-- From the clock's microseconds
unfoldable pub now_nanos : ℕ → ℤ
now_nanos micros = if ltb i64_max micros then pos i64_max else pos (min (micros * 1000) i64_max)

abbrev has_ttl : ℤ → Bool
has_ttl (pos zero) = false
has_ttl _ = true

unfoldable pub collect_ttl : Callback (List (ℕ × Entry))
collect_ttl s h e = (ok true, if has_ttl e.ttl_nanos then s ++ (h, e) ∷ [] else s)

-- `now.saturating_sub(last_access) > idle`: the difference stops at the largest `i64`.
abbrev is_idle : (now last_access : ℤ) (idle_nanos : ℕ) → Bool
is_idle now last_access idle_nanos =
    ltb (idle_nanos + neg_part now + pos_part last_access) (pos_part now + neg_part last_access)
    && ltb idle_nanos i64_max

unfoldable pub collect_idle : (now : ℤ) (idle_nanos : ℕ) → Callback (List ℕ)
collect_idle now idle_nanos s h e =
    (ok true, if is_idle now e.last_access_nanos idle_nanos then s ++ h ∷ [] else s)

unfoldable pub collect_access : Callback (List (ℕ × ℤ))
collect_access s h e = (ok true, s ++ (h, e.last_access_nanos) ∷ [])

-- `min_by_key`: the first of the least elements
unfoldable pub min_by_access : List (ℕ × ℤ) → Option (ℕ × ℤ)
min_by_access [] = none
min_by_access ((h, ts) ∷ xs) = elim (min_by_access xs) [
  | none ↦ some (h, ts)
  | some (k, least) ↦ if leb_ℤ ts least then some (h, ts) else some (k, least)
]

-- The samples are of entries and of keys.
module _ (deps : Deps) (choose_entries : ℕ → List (ℕ × Entry) → List (ℕ × Entry))
    (choose_keys : ℕ → List (ℕ × ℤ) → List (ℕ × ℤ)) where
  abbrev plus : ℕ → Result ℕ × RamBlock deps → Result ℕ × RamBlock deps
  plus b (ok n, r) = (ok (b + n), r)
  plus b (err e, r) = (err e, r)
  plus b (panic, r) = (panic, r)

  abbrev counted :
      Result Bool × RamBlock deps
      → (RamBlock deps → Result ℕ × RamBlock deps)
      → Result ℕ × RamBlock deps
  counted (ok b, r) rest = plus (if b then 1 else 0) (rest r)
  counted (err _, r) rest = rest r
  counted (panic, r) rest = (panic, r)

  -- The loop of the expiry sweep over the sample: how many it deleted.
  unfoldable pub expire : ℤ → RamBlock deps → List (ℕ × Entry) → Result ℕ × RamBlock deps
  expire now r [] = (ok 0, r)
  expire now r ((h, e) ∷ sample) =
      let kept = expire now r sample in
      let rest : RamBlock deps → Result ℕ × RamBlock deps = λ r'. expire now r' sample in
      if is_expired e now then counted (delete deps r h) rest else kept

  abbrev ratio_of : ℕ → Result ℕ × RamBlock deps → Result deps.F64 × RamBlock deps
  ratio_of sampled (ok expired, r) =
      (ok (deps.f64_div (deps.f64_of expired) (deps.f64_of sampled)), r)
  ratio_of sampled (err e, r) = (err e, r)
  ratio_of sampled (panic, r) = (panic, r)

  abbrev sweep_sample : ℤ → RamBlock deps → List (ℕ × Entry) → Result deps.F64 × RamBlock deps
  sweep_sample now r [] = (ok deps.f64_zero, r)
  sweep_sample now r (x ∷ xs) =
      let sample = choose_entries ttl_sample_size (x ∷ xs) in
      ratio_of (length sample) (expire now r sample)

  abbrev sweep_scanned :
      ℤ → RamBlock deps → Result Bool × List (ℕ × Entry) → Result deps.F64 × RamBlock deps
  sweep_scanned now r (ok _, entries) = sweep_sample now r entries
  sweep_scanned now r (err e, _) = (ok deps.f64_zero, r)
  sweep_scanned now r (panic, _) = (panic, r)

  -- `TtlSweeper::sweep_once`
  unfoldable pub sweep_ttl : ℤ → RamBlock deps → Result deps.F64 × RamBlock deps
  sweep_ttl now r = sweep_scanned now r (scan_tables deps collect_ttl r.tables [])

  abbrev then_next :
      Result Bool × RamBlock deps
      → (RamBlock deps → Result (Unit {0}) × RamBlock deps)
      → Result (Unit {0}) × RamBlock deps
  then_next (panic, r) rest = (panic, r)
  then_next (_, r) rest = rest r

  unfoldable pub evict_all : RamBlock deps → List ℕ → Result (Unit {0}) × RamBlock deps
  evict_all r [] = (ok tt, r)
  evict_all r (h ∷ victims) = then_next (delete deps r h) λ r'. evict_all r' victims

  abbrev evict_scanned : RamBlock deps → Result Bool × List ℕ → Result (Unit {0}) × RamBlock deps
  evict_scanned r (ok _, victims) = evict_all r victims
  evict_scanned r (err e, _) = (ok tt, r)
  evict_scanned r (panic, _) = (panic, r)

  -- `IdleSweeper::sweep_once`, with the longest idle time in nanoseconds
  unfoldable pub sweep_idle : ℤ → ℕ → RamBlock deps → Result (Unit {0}) × RamBlock deps
  sweep_idle now max_idle r =
      evict_scanned r (scan_tables deps (collect_idle now (min max_idle i64_max)) r.tables [])

  abbrev or_false : Result Bool × RamBlock deps → Result Bool × RamBlock deps
  or_false (ok b, r) = (ok b, r)
  or_false (err _, r) = (ok false, r)
  or_false (panic, r) = (panic, r)

  abbrev evict_victim : RamBlock deps → Option (ℕ × ℤ) → Result Bool × RamBlock deps
  evict_victim r none = (ok false, r)
  evict_victim r (some (h, ts)) = or_false (delete deps r h)

  abbrev evict_from : RamBlock deps → ℕ → Result Bool × List (ℕ × ℤ) → Result Bool × RamBlock deps
  evict_from r samples (panic, _) = (panic, r)
  evict_from r samples (_, []) = (ok false, r)
  evict_from r samples (_, x ∷ xs) = evict_victim r (min_by_access (choose_keys samples (x ∷ xs)))

  -- `LruSampler::evict_one`; an error of the scan is not looked at.
  unfoldable pub evict_one : RamBlock deps → ℕ → Result Bool × RamBlock deps
  evict_one r samples =
      if samples == 0
      then (ok false, r)
      else evict_from r samples (scan_tables deps collect_access r.tables [])
