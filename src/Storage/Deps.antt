-- ===== src/Storage/Deps.antt =====
-- What the storage crate takes from elsewhere: the `roaring` crate's bitmap, the capacity that an
-- allocation of `Vec::with_capacity` has, and the floating-point numbers of the garbage ratio.
use kamino.Prelude.{ℕ, ◌≤◌, ◌≡◌, Bool, List, [], insert_ascending, without}

pub record Deps : Type 1 where
  -- `RoaringBitmap`, a set of numbers that is iterated in ascending order
  pub Bitmap : Type 0
  pub bitmap_new : Bitmap
  pub bitmap_insert : ℕ → Bitmap → Bitmap
  pub bitmap_remove : ℕ → Bitmap → Bitmap
  pub bitmap_iter : Bitmap → List ℕ
  pub iter-new : bitmap_iter bitmap_new ≡ []
  pub iter-insert :
      (x : ℕ) (b : Bitmap) → bitmap_iter (bitmap_insert x b) ≡ insert_ascending x (bitmap_iter b)
  pub iter-remove :
      (x : ℕ) (b : Bitmap) → bitmap_iter (bitmap_remove x b) ≡ without x (bitmap_iter b)
  -- the capacity of a vector made by `with_capacity(n)`: at least `n`
  pub allocated : ℕ → ℕ
  pub le-allocated : (n : ℕ) → n ≤ allocated n
  -- `f64`, with `as f64` from a `usize`, `/`, `<=` and the constant 0.0
  pub F64 : Type 0
  pub f64_zero : F64
  pub f64_of : ℕ → F64
  pub f64_div : F64 → F64 → F64
  pub f64_le : F64 → F64 → Bool
