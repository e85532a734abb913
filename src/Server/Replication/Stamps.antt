-- ===== src/Server/Replication/Stamps.antt =====
-- The time stamps that crates/kamino-server/src/replication.rs issues, by any number of tasks at
-- once: the rounds of their calls follow each other in some order.
use kamino.Prelude.{
  zero, suc, ◌≡◌, ◌⊎◌, refl, Bool, true, false, List, [], ◌∷◌, Option, none, some, arith, All,
}
use kamino.Prelude.Int.{ℤ, pos, negsuc, ◌≤ℤ◌, ◌<ℤ◌}
use kamino.Server.Replication.{i64_max, TimestampSource, new, candidate, exchange, observe}

abbrev pub issue : Option ℤ → List ℤ → List ℤ
issue none issued = issued
issue (some t) issued = t ∷ issued

-- A history of the source and the time stamps that were issued, the newest first. A round holds a
-- value loaded at some time before, and finds it the same only when it is the value now.
pub data Run : TimestampSource → List ℤ → Type 0 where
  started : Run new []
  exchanged :
      {s : TimestampSource} {issued : List ℤ} (prev wall : ℤ) (same lucky : Bool)
      → (same ≡ true → prev ≡ s.last)
      → wall ≤ℤ i64_max
      → Run s issued
      → Run (exchange s prev wall same lucky).1 (issue (exchange s prev wall same lucky).0 issued)
  observed :
      {s : TimestampSource} {issued : List ℤ} (o : ℤ)
      → o ≤ℤ i64_max
      → Run s issued
      → Run (observe s o) issued

candidate-later :
    (l wall : ℤ)
    → l ≤ℤ i64_max
    → wall ≤ℤ i64_max
    → ((l <ℤ candidate l wall) ⊎ (candidate l wall ≡ i64_max))
      × (l ≤ℤ candidate l wall)
      × (candidate l wall ≤ℤ i64_max)
unfolding candidate
candidate-later (pos n) (pos w) h g = ground arith
candidate-later (pos n) (negsuc w) h g = ground arith
candidate-later (negsuc zero) (pos w) h g = ground arith
candidate-later (negsuc zero) (negsuc w) h g = ground arith
candidate-later (negsuc (suc n)) (pos w) h g = ground arith
candidate-later (negsuc (suc n)) (negsuc w) h g = ground arith

All-map : {P Q : ℤ → Type 0} (xs : List ℤ) → ((u : ℤ) → P u → Q u) → All P xs → All Q xs
All-map [] f h = tt
All-map (x ∷ xs) f h = (f x h.0, All-map xs f h.1)

-- The last value bounds what was issued.
record IsBound (s : TimestampSource) (issued : List ℤ) : Type 0 where
  representable : s.last ≤ℤ i64_max
  above : All (λ u. u ≤ℤ s.last) issued

exchange-IsBound :
    (s : TimestampSource) (issued : List ℤ) (prev wall : ℤ) (same lucky : Bool)
    → (same ≡ true → prev ≡ s.last)
    → wall ≤ℤ i64_max
    → IsBound s issued
    → IsBound (exchange s prev wall same lucky).1 (issue (exchange s prev wall same lucky).0 issued)
unfolding exchange
exchange-IsBound s issued prev wall false lucky h g b = b
exchange-IsBound s issued prev wall true false h g b = b
exchange-IsBound s issued prev wall true true h g b =
    let later : ((s.last <ℤ candidate prev wall) ⊎ (candidate prev wall ≡ i64_max))
        × (s.last ≤ℤ candidate prev wall)
        × (candidate prev wall ≤ℤ i64_max) =
      rw (h refl) (candidate-later s.last wall b.representable g) in
    record {
      representable = later.2;
      above = (omega arith, All-map issued (λ u p. omega (arith, p, later.1)) b.above);
    }

Run-IsBound : (s : TimestampSource) (issued : List ℤ) → Run s issued → IsBound s issued
unfolding new observe
Run-IsBound _ _ started = record { representable = omega arith; above = tt }
Run-IsBound _ _ (exchanged {s} {issued} prev wall same lucky h g r) =
    exchange-IsBound s issued prev wall same lucky h g (Run-IsBound s issued r)
Run-IsBound _ _ (observed {s} {issued} o g r) =
    let b = Run-IsBound s issued r in
    record {
      representable = ground (arith, b.representable);
      above = All-map issued (λ u p. ground (arith, p)) b.above;
    }

-- In any interleaving of rounds of `next` and calls of `observe`, a time stamp that a round issues
-- is later than every one issued before it, whatever the wall clock says, or is the largest 64-bit
-- integer.
pub exchange-later :
    (s : TimestampSource) (issued : List ℤ) (prev wall t : ℤ) (same lucky : Bool)
    → Run s issued
    → (same ≡ true → prev ≡ s.last)
    → wall ≤ℤ i64_max
    → (exchange s prev wall same lucky).0 ≡ some t
    → All (λ u. (u <ℤ t) ⊎ (t ≡ i64_max)) issued
unfolding exchange
exchange-later s issued prev wall t false lucky r h g e = absurd (ground (arith, e))
exchange-later s issued prev wall t true false r h g e = absurd (ground (arith, e))
exchange-later s issued prev wall t true true r h g e =
    let b = Run-IsBound s issued r in
    let same : candidate s.last wall ≡ t = ground (arith, h refl, e) in
    rw (← same) (
      All-map issued (λ u p. ground (arith, p, candidate-later s.last wall b.representable g))
        b.above)
