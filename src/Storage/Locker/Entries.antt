-- ===== src/Storage/Locker/Entries.antt =====
-- What every step of crates/kamino-storage/src/locker.rs keeps: the holder of an entry owns its mutex.
use kamino.Prelude.{
  ℕ, suc, zero, ◌+◌, ◌-◌, ◌<◌, ◌≡◌, ◌≢◌, refl, sym, ap, ◌∙◌, subst, Option, none, some, ◌==◌, arith,
  inl, inr, Option-cases, Bool-cases, ◌⊎◌,
}
use kamino.Storage.Locker.{
  Phase, idle, cloned, waiting, holding, reaping, Locker, get_or_create, fetch_add, lock_free,
  release, end_drop, last_goes_on, fetch_sub, is_slot, remove_unused, cleanup_reap, update, is_task,
}

-- The entry that a task has.
abbrev pub entry_of : Phase → Option ℕ
entry_of idle = none
entry_of (cloned e) = some e
entry_of (waiting e) = some e
entry_of (holding e) = some e
entry_of (reaping e) = some e

-- Who holds an entry has its mutex, and no task has an entry that is still to come.
pub record IsExclusive (l : Locker) : Type 0 where
  pub held : (t e : ℕ) → l.phase t ≡ holding e → l.owner e ≡ some t
  pub known : (t e : ℕ) → entry_of (l.phase t) ≡ some e → e < l.fresh
  pub slotted : (e : ℕ) → l.slot ≡ some e → e < l.fresh

pub unsome : {A : Type 0} {a b : A} → some a ≡ some b → a ≡ b
unsome h = cc

update-cases {ℓ} :
    {A : Type ℓ} (f : ℕ → A) (k : ℕ) (a : A) (j : ℕ)
    → ((j ≡ k) × (update f k a j ≡ a)) ⊎ ((j ≢ k) × (update f k a j ≡ f j))
unfolding update
update-cases f k a j = elim (Bool-cases (j == k)) [
  | inl same ↦ inl (ground arith, rw same refl)
  | inr other ↦ inr (ground arith, rw other refl)
]

-- A task that comes to a phase in which it holds nothing, with an entry that is there.
moved-IsExclusive :
    (t : ℕ) (l : Locker) (p : Phase)
    → ((e : ℕ) → p ≢ holding e)
    → ((e : ℕ) → entry_of p ≡ some e → e < l.fresh)
    → IsExclusive l
    → IsExclusive (record l { phase = update l.phase t p })
moved-IsExclusive t l p free there i = record {
  held = λ u e h. elim (update-cases l.phase t p u) [
    | inl (same, at) ↦ absurd (free e (sym at ∙ h))
    | inr (other, at) ↦ i.held u e (sym at ∙ h)
  ];
  known = λ u e h. elim (update-cases l.phase t p u) [
    | inl (same, at) ↦ there e (sym (ap entry_of at) ∙ h)
    | inr (other, at) ↦ i.known u e (sym (ap entry_of at) ∙ h)
  ];
  slotted = i.slotted;
}

-- A count is of no matter.
counted-IsExclusive :
    (l : Locker) (refcount : ℕ → ℕ) → IsExclusive l → IsExclusive (record l { refcount = refcount })
counted-IsExclusive l refcount i = record { held = i.held; known = i.known; slotted = i.slotted }

known-get_or_create :
    (t e : ℕ) (l : Locker)
    → l.slot ≡ some e
    → record l { phase = update l.phase t (cloned e) } ≡ get_or_create t l
unfolding get_or_create
known-get_or_create t e l at = rw at refl

abbrev created : ℕ → Locker → Locker
created t l = record l {
  slot = some l.fresh;
  fresh = suc l.fresh;
  refcount = update l.refcount l.fresh 0;
  owner = update l.owner l.fresh none;
  phase = update l.phase t (cloned l.fresh);
}

created-get_or_create : (t : ℕ) (l : Locker) → l.slot ≡ none → created t l ≡ get_or_create t l
unfolding get_or_create
created-get_or_create t l at = rw at refl

created-IsExclusive : (t : ℕ) (l : Locker) → IsExclusive l → IsExclusive (created t l)
created-IsExclusive t l i = record {
  held = λ u e h. elim (update-cases l.phase t (cloned l.fresh) u) [
    | inl (same, at) ↦ absurd (ground (arith, at, h))
    | inr (other, at) ↦
        let below = i.known u e (ap entry_of (sym at ∙ h)) in
        elim (update-cases l.owner l.fresh none e) [
          | inl (fresh', _) ↦ absurd (omega (arith, below, fresh'))
          | inr (_, kept) ↦ kept ∙ i.held u e (sym at ∙ h)
        ]
  ];
  known = λ u e h. elim (update-cases l.phase t (cloned l.fresh) u) [
    | inl (same, at) ↦
        let this : l.fresh ≡ e = unsome (sym (ap entry_of at) ∙ h) in omega (arith, this)
    | inr (other, at) ↦ let below = i.known u e (sym (ap entry_of at) ∙ h) in omega (arith, below)
  ];
  slotted = λ e h. let this : l.fresh ≡ e = unsome h in omega (arith, this);
}

pub get_or_create-IsExclusive :
    (t : ℕ) (l : Locker) → IsExclusive l → IsExclusive (get_or_create t l)
get_or_create-IsExclusive t l i = elim (Option-cases l.slot) [
  | inl empty' ↦ subst IsExclusive (created-get_or_create t l empty') (created-IsExclusive t l i)
  | inr (e, at) ↦ subst IsExclusive (known-get_or_create t e l at) (
      moved-IsExclusive t l (cloned e) (λ f h. cc)
        (λ f h. subst (λ x. x < l.fresh) (unsome h) (i.slotted e at)) i)
]

pub fetch_add-IsExclusive :
    (t e : ℕ) (l : Locker) → e < l.fresh → IsExclusive l → IsExclusive (fetch_add t e l)
unfolding fetch_add
fetch_add-IsExclusive t e l there i =
    moved-IsExclusive t (record l { refcount = update l.refcount e (l.refcount e + 1) }) (waiting e)
      (λ f h. cc) (λ f h. subst (λ x. x < l.fresh) (unsome h) there)
      (counted-IsExclusive l (update l.refcount e (l.refcount e + 1)) i)

locked-IsExclusive :
    (t e : ℕ) (l : Locker)
    → l.owner e ≡ none
    → e < l.fresh
    → IsExclusive l
    → IsExclusive
        (record l { owner = update l.owner e (some t); phase = update l.phase t (holding e) })
locked-IsExclusive t e l free there i = record {
  held = λ u f h. elim (update-cases l.phase t (holding e) u) [
    | inl (same, at) ↦
        let this : some e ≡ some f = ap entry_of (sym at ∙ h) in
        elim (update-cases l.owner e (some t) f) [
          | inl (_, now) ↦ now ∙ ap some (sym same)
          | inr (not_this, _) ↦ absurd (not_this (sym (unsome this)))
        ]
    | inr (other, at) ↦ elim (update-cases l.owner e (some t) f) [
      | inl (this, _) ↦
          let owned : l.owner e ≡ some u = ap l.owner (sym this) ∙ i.held u f (sym at ∙ h) in
          absurd (ground (arith, owned))
      | inr (_, kept) ↦ kept ∙ i.held u f (sym at ∙ h)
    ]
  ];
  known = λ u f h. elim (update-cases l.phase t (holding e) u) [
    | inl (same, at) ↦ subst (λ x. x < l.fresh) (unsome (sym (ap entry_of at) ∙ h)) there
    | inr (other, at) ↦ i.known u f (sym (ap entry_of at) ∙ h)
  ];
  slotted = i.slotted;
}

pub lock_free-IsExclusive :
    (t e : ℕ) (l : Locker) (o : Option ℕ) (l' : Locker)
    → l.owner e ≡ o
    → e < l.fresh
    → lock_free t e l o ≡ some l'
    → IsExclusive l
    → IsExclusive l'
lock_free-IsExclusive t e l none l' free there h i =
    subst IsExclusive (unsome h) (locked-IsExclusive t e l free there i)
lock_free-IsExclusive t e l (some u) l' owned there h i = absurd (ground arith)

released-IsExclusive :
    (t e : ℕ) (l : Locker)
    → l.owner e ≡ some t
    → IsExclusive l
    → IsExclusive (record l { owner = update l.owner e none; phase = update l.phase t idle })
released-IsExclusive t e l owned i = record {
  held = λ u f h. elim (update-cases l.phase t idle u) [
    | inl (same, at) ↦ absurd (ground (arith, at, h))
    | inr (other, at) ↦ elim (update-cases l.owner e none f) [
      | inl (this, _) ↦
          let his : l.owner e ≡ some u = ap l.owner (sym this) ∙ i.held u f (sym at ∙ h) in
          absurd (other (unsome (sym his ∙ owned)))
      | inr (_, kept) ↦ kept ∙ i.held u f (sym at ∙ h)
    ]
  ];
  known = λ u f h. elim (update-cases l.phase t idle u) [
    | inl (same, at) ↦ absurd (ground (arith, at, h))
    | inr (other, at) ↦ i.known u f (sym (ap entry_of at) ∙ h)
  ];
  slotted = i.slotted;
}

idle-IsExclusive :
    (t : ℕ) (l : Locker) → IsExclusive l → IsExclusive (record l { phase = update l.phase t idle })
idle-IsExclusive t l i = moved-IsExclusive t l idle (λ f h. cc) (λ f h. absurd (ground arith)) i

dropped-IsExclusive :
    (t e : ℕ) (l : Locker) (o : Option ℕ)
    → l.owner e ≡ o
    → IsExclusive l
    → IsExclusive (record (release t e l o) { phase = update (release t e l o).phase t idle })
unfolding is_task
dropped-IsExclusive t e l none owned i = idle-IsExclusive t l i
dropped-IsExclusive t e l (some u) owned i = elim (Bool-cases (u == t)) [
  | inl mine ↦
      let same : u ≡ t = ground arith in
      rw mine (released-IsExclusive t e l (owned ∙ ap some same) i)
  | inr other ↦ rw other (idle-IsExclusive t l i)
]

end_drop-IsExclusive : (t e : ℕ) (l : Locker) → IsExclusive l → IsExclusive (end_drop t e l)
end_drop-IsExclusive t e l i = dropped-IsExclusive t e l (l.owner e) refl i

last_goes_on-IsExclusive :
    (t e n : ℕ) (l : Locker) → e < l.fresh → IsExclusive l → IsExclusive (last_goes_on t e l n)
last_goes_on-IsExclusive t e zero l there i = end_drop-IsExclusive t e l i
last_goes_on-IsExclusive t e (suc zero) l there i =
    moved-IsExclusive t l (reaping e) (λ f h. cc) (λ f h. subst (λ x. x < l.fresh) (unsome h) there)
      i
last_goes_on-IsExclusive t e (suc (suc n)) l there i = end_drop-IsExclusive t e l i

pub fetch_sub-IsExclusive :
    (t e : ℕ) (l : Locker) → e < l.fresh → IsExclusive l → IsExclusive (fetch_sub t e l)
unfolding fetch_sub
fetch_sub-IsExclusive t e l there i =
    last_goes_on-IsExclusive t e (l.refcount e)
      (record l { refcount = update l.refcount e (l.refcount e - 1) }) there
      (counted-IsExclusive l (update l.refcount e (l.refcount e - 1)) i)

remove_unused-IsExclusive :
    (e n : ℕ) (l : Locker) → IsExclusive l → IsExclusive (remove_unused e l n)
remove_unused-IsExclusive e zero l i = elim (Bool-cases (is_slot e l.slot)) [
  | inl mine ↦
      rw mine (record { held = i.held; known = i.known; slotted = λ f h. absurd (ground arith) })
  | inr other ↦ rw other i
]
remove_unused-IsExclusive e (suc n) l i = i

pub cleanup_reap-IsExclusive :
    (t e : ℕ) (l : Locker) → IsExclusive l → IsExclusive (cleanup_reap t e l)
unfolding cleanup_reap
cleanup_reap-IsExclusive t e l i =
    end_drop-IsExclusive t e (remove_unused e l (l.refcount e))
      (remove_unused-IsExclusive e (l.refcount e) l i)
