-- ===== src/Storage/Locker.antt =====
-- crates/kamino-storage/src/locker.rs: the registry of locks, for one key. An entry is a number,
-- fresh at each creation, as an `Arc` is by its address. The steps are what a task does without
-- another between: a section under the outer mutex, an atomic operation, a lock of the inner mutex.
pub mod Exclusion
pub mod Entries
use kamino.Prelude.{
  ℕ, zero, suc, ◌+◌, ◌-◌, Bool, true, false, Option, none, some, List, [], ◌∷◌, ◌==◌, if◌then◌else◌,
}

-- Where a task stands in `acquire` and in the drop of its guard.
pub data Phase : Type 0 where
  idle : Phase
  cloned : ℕ → Phase  -- the entry is cloned, its count not raised yet
  waiting : ℕ → Phase
  holding : ℕ → Phase
  reaping : ℕ → Phase  -- the count went to zero, the outer mutex is not taken yet

pub record Locker : Type 0 where
  pub slot : Option ℕ
  pub fresh : ℕ
  pub refcount : ℕ → ℕ
  pub owner : ℕ → Option ℕ
  pub phase : ℕ → Phase

unfoldable pub new : Locker
new = record { slot = none; fresh = 0; refcount = λ _. 0; owner = λ _. none; phase = λ _. idle }

unfoldable pub update {ℓ} : {A : Type ℓ} → (ℕ → A) → ℕ → A → ℕ → A
update f k a j = if j == k then a else f j

unfoldable pub is_task : ℕ → ℕ → Bool
is_task t u = u == t

-- The section of `get_or_create` under the outer mutex.
unfoldable pub get_or_create : ℕ → Locker → Locker
get_or_create t l = elim l.slot [
  | some e ↦ record l { phase = update l.phase t (cloned e) }
  | none ↦ record l {
    slot = some l.fresh;
    fresh = suc l.fresh;
    refcount = update l.refcount l.fresh 0;
    owner = update l.owner l.fresh none;
    phase = update l.phase t (cloned l.fresh);
  }
]

-- `refcount.fetch_add`
unfoldable pub fetch_add : ℕ → ℕ → Locker → Locker
fetch_add t e l = record l {
  refcount = update l.refcount e (l.refcount e + 1);
  phase = update l.phase t (waiting e);
}

-- The inner mutex is given to a task that waits for it.
abbrev pub lock_free : ℕ → ℕ → Locker → Option ℕ → Option Locker
lock_free t e l none =
    some (record l { owner = update l.owner e (some t); phase = update l.phase t (holding e) })
lock_free t e l (some _) = none

-- The inner mutex is released if the task has it.
abbrev pub release : ℕ → ℕ → Locker → Option ℕ → Locker
release t e l none = l
release t e l (some u) = if is_task t u then record l { owner = update l.owner e none } else l

abbrev pub end_drop : ℕ → ℕ → Locker → Locker
end_drop t e l = let l' = release t e l (l.owner e) in record l' { phase = update l'.phase t idle }

-- Behind `fetch_sub`, by the count before it: only the last reference goes on.
abbrev pub last_goes_on : ℕ → ℕ → Locker → ℕ → Locker
last_goes_on t e l (suc zero) = record l { phase = update l.phase t (reaping e) }
last_goes_on t e l prev = end_drop t e l

unfoldable pub fetch_sub : ℕ → ℕ → Locker → Locker
fetch_sub t e l =
    last_goes_on t e (record l { refcount = update l.refcount e (l.refcount e - 1) }) (l.refcount e)

-- `Arc::ptr_eq` at what the registry has.
abbrev pub is_slot : ℕ → Option ℕ → Bool
is_slot e none = false
is_slot e (some f) = f == e

-- The section of `reap` under the outer mutex, by the count that it finds.
abbrev pub remove_unused : ℕ → Locker → ℕ → Locker
remove_unused e l zero = if is_slot e l.slot then record l { slot = none } else l
remove_unused e l (suc _) = l

-- That section, and the end of the drop.
unfoldable pub cleanup_reap : ℕ → ℕ → Locker → Locker
cleanup_reap t e l = end_drop t e (remove_unused e l (l.refcount e))

pub data Action : Type 0 where
  acquire count lock time_out drop_guard finish : Action

-- One step of a task; `none` where the task cannot take it.
unfoldable pub act : Phase → Action → ℕ → Locker → Option Locker
unfolding get_or_create fetch_add fetch_sub cleanup_reap
act idle acquire t l = some (get_or_create t l)
act (cloned e) count t l = some (fetch_add t e l)
act (waiting e) lock t l = lock_free t e l (l.owner e)
act (waiting e) time_out t l = some (fetch_sub t e l)
act (holding e) drop_guard t l = some (fetch_sub t e l)
act (reaping e) finish t l = some (cleanup_reap t e l)
act _ _ t l = none

unfoldable pub step : ℕ × Action → Locker → Option Locker
unfolding act
step (t, a) l = act (l.phase t) a t l

infixl 5 ◌>>=◌
abbrev pub ◌>>=◌ : Option Locker → (Locker → Option Locker) → Option Locker
none >>= f = none
some l >>= f = f l

-- A schedule of steps.
unfoldable pub run : List (ℕ × Action) → Locker → Option Locker
unfolding step
run [] l = some l
run (s ∷ ss) l = step s l >>= λ l'. run ss l'
