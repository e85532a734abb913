-- ===== src/Storage/Eviction/Sample.antt =====
-- What a pass of crates/kamino-storage/src/eviction.rs may delete.
use kamino.Prelude.{
  ℕ, ◌+◌, ◌≡◌, refl, ◌∙◌, false, List, [], ◌∷◌, none, some, arith, All, inl, inr, Bool-cases,
  Option-cases, if◌then◌else◌,
}
use kamino.Prelude.Int.{ℤ, ◌≤ℤ◌}
use kamino.Storage.Deps.{Deps}
use kamino.Storage.Outcome.{ok}
use kamino.Storage.Entry.{Entry, is_expired}
use kamino.Storage.RamBlock.{RamBlock, get}
use kamino.Storage.RamBlock.Tables.{AreSound}
use kamino.Storage.RamBlock.Laws.{delete_others}
use kamino.Storage.Eviction.{expire, min_by_access}

All-map :
    {P Q : ℕ × ℤ → Type 0} (xs : List (ℕ × ℤ)) → ((u : ℕ × ℤ) → P u → Q u) → All P xs → All Q xs
All-map [] f h = tt
All-map (x ∷ xs) f h = (f x h.0, All-map xs f h.1)

min_by_access-none : (xs : List (ℕ × ℤ)) → min_by_access xs ≡ none → xs ≡ []
unfolding min_by_access
min_by_access-none [] e = refl
min_by_access-none ((k, t) ∷ xs) e = absurd (ground arith)

-- The victim of a sample was accessed no later than any key of the sample.
pub min_by_access-le :
    (xs : List (ℕ × ℤ)) (h : ℕ) (ts : ℤ) → min_by_access xs ≡ some (h, ts) → All (λ x. ts ≤ℤ x.1) xs
unfolding min_by_access
min_by_access-le [] h ts e = tt
min_by_access-le ((k, t) ∷ xs) h ts e = elim (Option-cases (min_by_access xs)) [
  | inl none' ↦ rw (min_by_access-none xs none') (ground (arith, none'), tt)
  | inr ((j, least), found) ↦
      let le = min_by_access-le xs j least found in
      (ground (arith, found), All-map xs (λ u p. ground (arith, found, p)) le)
]

module _ (deps : Deps) (choose_entries : ℕ → List (ℕ × Entry) → List (ℕ × Entry))
    (choose_keys : ℕ → List (ℕ × ℤ) → List (ℕ × ℤ)) where
  -- The expiry sweep of a sample on a sound engine succeeds, keeps the engine sound, and changes
  -- what no key reads under which no entry of the sample is expired.
  pub expire_lem :
      (now : ℤ) (sample : List (ℕ × Entry)) (r : RamBlock deps)
      → AreSound deps r.tables
      → (n : ℕ) × (r' : RamBlock deps) × (expire deps choose_entries choose_keys now r sample
          ≡ (ok n, r'))
        × AreSound deps r'.tables
        × ((j : ℕ)
            → All (λ x. x.0 ≡ j → is_expired x.1 now ≡ false) sample
            → get deps r' j ≡ get deps r j)
  unfolding expire
  expire_lem now [] r s = (0, r, refl, s, λ j h. refl)
  expire_lem now ((k, e) ∷ sample) r s = elim (Bool-cases (is_expired e now)) [
    | inr fresh ↦
        let (n, r', done, sound, same) = expire_lem now sample r s in
        (n, r', rw fresh done, sound, λ j h. same j h.1)
    | inl old ↦
        let (b, r1, gone, s1, _, others) = delete_others deps r k s in
        let (n, r', done, sound, same) = expire_lem now sample r1 s1 in
        (
          (if b then 1 else 0) + n,
          r',
          rw (old, gone, done) refl,
          sound,
          λ j h. same j h.1 ∙ others j λ p. ground (arith, h.0 p),
        )
  ]
