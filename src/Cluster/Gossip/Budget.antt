-- ===== src/Cluster/Gossip/Budget.antt =====
-- The transmit budget of crates/kamino-cluster/src/gossip.rs.
use kamino.Prelude.{
  ℕ, zero, suc, ◌*◌, ◌/◌, ◌^◌, ◌≤◌, ◌<◌, ◌≡◌, refl, false, arith, max, min, inl, inr, Bool-cases,
  ◌==◌,
}
use native.Mathlib.Numerals.{unary_clauses}
use kamino.Cluster.Gossip.{bit_length, budget_for, u32_max}

bit_length-zero : (fuel : ℕ) → bit_length fuel 0 ≡ 0
unfolding bit_length
bit_length-zero zero = refl
bit_length-zero (suc fuel) = refl

double : (b : ℕ) → 2 ^ suc b ≡ 2 * 2 ^ b
double b = simp unary_clauses (omega arith)

-- A number is below the power of two of its length.
lt-bit_length : (fuel n : ℕ) → n < 2 ^ fuel → n < 2 ^ bit_length fuel n
unfolding bit_length
lt-bit_length zero n h = h
lt-bit_length (suc fuel) n h =
    let upper = lt-bit_length fuel (n / 2) (omega (arith, h)) in
    elim (Bool-cases (n == 0)) [
      | inl none' ↦ rw none' (ground arith)
      | inr some' ↦ rw some' (omega (arith, upper, double (bit_length fuel (n / 2))))
    ]

bit_length-le : (fuel n : ℕ) → bit_length fuel n ≤ fuel
unfolding bit_length
bit_length-le zero n = omega arith
bit_length-le (suc fuel) n = ground (arith, bit_length-le fuel (n / 2))

-- A positive number is at least half of that power.
bit_length-half : (fuel n : ℕ) → n < 2 ^ fuel → 0 < n → 2 ^ bit_length fuel n ≤ 2 * n
unfolding bit_length
bit_length-half zero n h pos = omega (arith, h, pos)
bit_length-half (suc fuel) n h pos =
    let some' : (n == 0) ≡ false = ground arith in
    elim (Bool-cases (n / 2 == 0)) [
      | inl one ↦
          let e : n / 2 ≡ 0 = ground arith in
          rw (some', e, bit_length-zero fuel) (omega (arith, pos))
      | inr more ↦
          let p : 0 < n / 2 = ground arith in
          let half = bit_length-half fuel (n / 2) (omega (arith, h)) p in
          rw some' (omega (arith, half, double (bit_length fuel (n / 2))))
    ]

bit_length-pos : (fuel n : ℕ) → n < 2 ^ fuel → 0 < n → 0 < bit_length fuel n
unfolding bit_length
bit_length-pos zero n h pos = omega (arith, h, pos)
bit_length-pos (suc fuel) n h pos = ground arith

-- For a cluster of at least one member and below 2^32, the budget of an event is `3 * b` for the
-- positive `b` with `n < 2 ^ b` and `2 ^ b <= 2 * n`.
pub budget_for-log2 :
    (n : ℕ)
    → 0 < n
    → n < 2 ^ 32
    → (b : ℕ) × (budget_for n ≡ 3 * b) × (n < 2 ^ b) × (2 ^ b ≤ 2 * n) × (0 < b)
unfolding budget_for
budget_for-log2 n pos small =
    let same : min (max n 1) u32_max ≡ n = omega (arith, pos, small) in
    (
      bit_length 32 n,
      rw same (omega (arith, bit_length-le 32 n)),
      lt-bit_length 32 n small,
      bit_length-half 32 n small pos,
      bit_length-pos 32 n small pos,
    )
