-- ===== src/Cluster/Membership/Entries.antt =====
-- What the sweeps make of one entry, `reap_suspects` and `evict_tombstones` of
-- crates/kamino-cluster/src/membership.rs.
use kamino.Prelude.{
  ℕ, ◌≡◌, refl, Bool, false, Option, none, some, arith, ◌≢◌, ◌⊎◌, ◌+◌, ◌≤◌, ◌<◌, ◌==◌, max, true,
  Bool-cases, inl, inr, if◌then◌else◌,
}
use kamino.Cluster.Membership.{
  MemberState, is_alive, is_suspect, is_dead, suspect?, dead?, MemberEntry, is_due, is_old,
}

-- An entry before and after the suspects that are due at `now` are declared dead, and whether it
-- is announced.
pub data Reaped (now : ℕ) : Option MemberEntry → Option MemberEntry → Bool → Type 0 where
  no_entry : Reaped now none none false
  due :
      (e : MemberEntry)
      → e.state ≡ is_suspect
      → e.suspect_deadline_ns ≤ now
      → Reaped now (some e) (some (record e { state = is_dead })) true
  waits : (e : MemberEntry) → now < e.suspect_deadline_ns → Reaped now (some e) (some e) false
  not_suspected : (e : MemberEntry) → e.state ≢ is_suspect → Reaped now (some e) (some e) false

abbrev pub reaped : ℕ → Option MemberEntry → Option MemberEntry
reaped now none = none
reaped now (some e) = some (if is_due now e then record e { state = is_dead } else e)

abbrev pub due? : ℕ → Option MemberEntry → Bool
due? now none = false
due? now (some e) = is_due now e

suspect-cases : (s : MemberState) → (s ≡ is_suspect) ⊎ ((suspect? s ≡ false) × (s ≢ is_suspect))
suspect-cases is_alive = inr (refl, λ e. cc)
suspect-cases is_suspect = inl refl
suspect-cases is_dead = inr (refl, λ e. cc)

due-Reaped :
    (now : ℕ) (e : MemberEntry) (b : Bool)
    → is_due now e ≡ b
    → Reaped now (some e) (some (if b then record e { state = is_dead } else e)) b
due-Reaped now e true h = elim (suspect-cases e.state) [
  | inl suspected ↦ Reaped.due e suspected (ground arith)
  | inr other ↦ absurd (ground (arith, other.0))
]
due-Reaped now e false h = elim (suspect-cases e.state) [
  | inl suspected ↦ Reaped.waits e (ground (arith, suspected))
  | inr other ↦ Reaped.not_suspected e other.1
]

pub reaped-Reaped : (now : ℕ) (o : Option MemberEntry) → Reaped now o (reaped now o) (due? now o)
reaped-Reaped now none = Reaped.no_entry
reaped-Reaped now (some e) = due-Reaped now e (is_due now e) refl

-- An entry before and after the tombstones that are `older` are dropped: a deadline that is still
-- to come counts as an age of 0.
pub data Evicted (older now : ℕ) : Option MemberEntry → Option MemberEntry → Type 0 where
  no_entry : Evicted older now none none
  aged :
      (e : MemberEntry)
      → e.state ≡ is_dead
      → 0 < e.suspect_deadline_ns
      → e.suspect_deadline_ns + older ≤ max now e.suspect_deadline_ns
      → Evicted older now (some e) none
  young :
      (e : MemberEntry)
      → max now e.suspect_deadline_ns < e.suspect_deadline_ns + older
      → Evicted older now (some e) (some e)
  not_timed : (e : MemberEntry) → e.suspect_deadline_ns ≡ 0 → Evicted older now (some e) (some e)
  not_dead : (e : MemberEntry) → e.state ≢ is_dead → Evicted older now (some e) (some e)

abbrev pub evicted : ℕ → ℕ → Option MemberEntry → Option MemberEntry
evicted older now none = none
evicted older now (some e) = if is_old older now e then none else some e

dead-cases : (s : MemberState) → (s ≡ is_dead) ⊎ ((dead? s ≡ false) × (s ≢ is_dead))
dead-cases is_alive = inr (refl, λ e. cc)
dead-cases is_suspect = inr (refl, λ e. cc)
dead-cases is_dead = inl refl

old-Evicted :
    (older now : ℕ) (e : MemberEntry) (b : Bool)
    → is_old older now e ≡ b
    → Evicted older now (some e) (if b then none else some e)
old-Evicted older now e true h = elim (dead-cases e.state) [
  | inl died ↦ Evicted.aged e died (ground arith) (ground arith)
  | inr other ↦ absurd (ground (arith, other.0))
]
old-Evicted older now e false h = elim (dead-cases e.state) [
  | inr other ↦ Evicted.not_dead e other.1
  | inl died ↦ elim (Bool-cases (e.suspect_deadline_ns == 0)) [
    | inl untimed ↦ Evicted.not_timed e (ground arith)
    | inr timed ↦ Evicted.young e (ground (arith, died))
  ]
]

pub evicted-Evicted :
    (older now : ℕ) (o : Option MemberEntry) → Evicted older now o (evicted older now o)
evicted-Evicted older now none = Evicted.no_entry
evicted-Evicted older now (some e) = old-Evicted older now e (is_old older now e) refl
