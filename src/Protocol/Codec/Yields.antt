-- ===== src/Protocol/Codec/Yields.antt =====
-- What holds of the value that a reader answers.
use kamino.Prelude.{ℕ, List, drop}
use kamino.Prelude.Int.{ℤ}
use kamino.Protocol.Frame.{Frame}
use kamino.Protocol.Error.{Result, ok, err, ◌>>=◌, ProtocolError}
use kamino.Protocol.Codec.{Reader, after, read_line, on_line, parse_i64, with_header}

-- What holds of a value that was read.
abbrev pub Yields {ℓ κ} : {A : Type ℓ} → (A → Type κ) → Result ProtocolError (A × ℕ) → Type κ
Yields P (ok (a, n)) = P a
Yields P (err e) = Unit

pub bind-Yields {ℓ κ μ} :
    {A : Type ℓ} {B : Type κ} (P : A → Type μ) (Q : B → Type μ) (r : Result ProtocolError (A × ℕ))
    (k : A × ℕ → Result ProtocolError (B × ℕ))
    → Yields P r
    → ((a : A) (n : ℕ) → P a → Yields Q (k (a, n)))
    → Yields Q (r >>= k)
bind-Yields P Q (ok (a, n)) k y later = later a n y
bind-Yields P Q (err e) k y later = tt

pub value-Yields {ℓ κ μ} :
    {A : Type ℓ} {B : Type κ} (Q : B → Type μ) (r : Result ProtocolError A)
    (k : A → Result ProtocolError (B × ℕ))
    → ((a : A) → Yields Q (k a))
    → Yields Q (r >>= k)
value-Yields Q (ok a) k later = later a
value-Yields Q (err e) k later = tt

pub after-Yields {ℓ κ} :
    {A : Type ℓ} (Q : A → Type κ) (n : ℕ) (r : Result ProtocolError (A × ℕ))
    → Yields Q r
    → Yields Q (after n r)
after-Yields Q n (ok (a, k)) y = y
after-Yields Q n (err e) y = tt

pub any-Yields {ℓ} : {A : Type ℓ} (r : Result ProtocolError (A × ℕ)) → Yields (λ _. Unit {0}) r
any-Yields (ok (a, n)) = tt
any-Yields (err e) = tt

pub with_header-Yields :
    (Q : Frame → Type 0) (body : ℤ → Reader Frame) (buf : List ℕ)
    → ((v : ℤ) (rest : List ℕ) → Yields Q (body v rest))
    → Yields Q (with_header body buf)
unfolding with_header
with_header-Yields Q body buf each =
    bind-Yields (λ _. Unit) Q (read_line buf) _ (any-Yields (read_line buf))
      λ s n _.
        value-Yields Q (parse_i64 s) _
          λ v. after-Yields Q n (body v (drop n buf)) (each v (drop n buf))

abbrev pub Makes {ℓ} : (Frame → Type ℓ) → Result ProtocolError Frame → Type ℓ
Makes Q (ok f) = Q f
Makes Q (err e) = Unit

pub made-Yields :
    (Q : Frame → Type 0) (r : Result ProtocolError Frame) (n : ℕ)
    → Makes Q r
    → Yields Q (r >>= λ f. ok (f, n))
made-Yields Q (ok f) n y = y
made-Yields Q (err e) n y = tt

-- A frame on one line.
pub on_line-Yields :
    (Q : Frame → Type 0) (f : List ℕ → Result ProtocolError Frame) (buf : List ℕ)
    → ((s : List ℕ) → Makes Q (f s))
    → Yields Q (on_line f buf)
on_line-Yields Q f buf each =
    bind-Yields (λ _. Unit) Q (read_line buf) _ (any-Yields (read_line buf))
      λ s n _. made-Yields Q (f s) n (each s)
