-- ===== src/Storage/Outcome.antt =====
-- crates/kamino-storage/src/error.rs: the errors of the storage layer, and the outcome of a call.
use kamino.Prelude.{ℕ}

-- The text of an error message, by what it reports.
pub data Reason : Type 0 where
  value_length : ℕ → Reason
  expected_bytes : ℕ → Reason
  export_count : ℕ → Reason
  empty_payload : Reason
  unknown_tag : ℕ → Reason
  missing_count : Reason

pub data Error : Type 0 where
  key_too_large : ℕ → ℕ → Error  -- got, max
  value_too_large : ℕ → ℕ → Error  -- got, max
  truncated : ℕ → Error  -- need
  corruption : Reason → Error
  import_format : Reason → Error

-- `Result<T>`, and a panic, which unwinds the task that called.
pub data Result {ℓ} (A : Type ℓ) : Type ℓ where
  ok : A → Result A
  err : Error → Result A
  panic : Result A

infixl 5 ◌>>=◌
abbrev pub ◌>>=◌ {ℓ κ} : {A : Type ℓ} {B : Type κ} → Result A → (A → Result B) → Result B
ok a >>= f = f a
err e >>= f = err e
panic >>= f = panic
