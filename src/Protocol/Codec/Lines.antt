-- ===== src/Protocol/Codec/Lines.antt =====
-- Reading back a line, a header and a number that the encoder wrote.
use kamino.Prelude.{
  ℕ, ◌+◌, ◌^◌, ◌<◌, ◌≡◌, refl, false, List, [], ◌∷◌, ◌++◌, some, arith, ltb, ◌==◌, length, drop,
  length-append, drop-append_add, drop-append_eq, take-append_eq,
}
use kamino.Prelude.Int.{ℤ, pos, InI64}
use kamino.Protocol.Frame.{bulk}
use kamino.Protocol.Error.{Result, ok, ProtocolError}
use kamino.Protocol.Text.{print_nat, print_int, has_crlf}
use kamino.Protocol.Text.Digits.{print_int-has_crlf, print_int-is_utf8, parse_signed-print_int}
use kamino.Protocol.Codec.{Reader, after, read_line, on_line, parse_i64, parse_payload, with_header}

pub read_line-crlf :
    (s rest : List ℕ) → has_crlf s ≡ false → read_line (s ++ 13 ∷ 10 ∷ rest) ≡ ok (s, length s + 2)
unfolding read_line has_crlf
read_line-crlf [] rest h = refl
read_line-crlf (a ∷ []) rest h =
    let plain : (a == 13) ≡ false = ground arith in rw plain (ground arith)
read_line-crlf (a ∷ b ∷ s) rest h =
    let plain : (a == 13) ≡ false = ground arith in
    let ih : read_line (b ∷ s ++ 13 ∷ 10 ∷ rest) ≡ ok (b ∷ s, length (b ∷ s) + 2) =
      read_line-crlf (b ∷ s) rest (ground arith) in
    rw (plain, ih) (ground arith)

pub parse_i64-print_int : (v : ℤ) → InI64 v → parse_i64 (print_int v) ≡ ok v
unfolding parse_i64
parse_i64-print_int v h = rw (print_int-is_utf8 v, parse_signed-print_int v h)

-- A header with a number that fits reads as that number, and its body follows.
pub with_header-int {ℓ} :
    {A : Type ℓ} (body : ℤ → Reader A) (v : ℤ) (rest : List ℕ)
    → InI64 v
    → with_header body (print_int v ++ 13 ∷ 10 ∷ rest)
      ≡ after (length (print_int v) + 2) (body v rest)
unfolding with_header
with_header-int body v rest h =
    let line = read_line-crlf (print_int v) rest (print_int-has_crlf v) in
    let behind : drop (length (print_int v) + 2) (print_int v ++ 13 ∷ 10 ∷ rest) ≡ rest =
      drop-append_add (length (print_int v)) 2 (print_int v) (13 ∷ 10 ∷ rest) refl in
    rw (line, parse_i64-print_int v h, behind)

pub on_line-crlf {ℓ} :
    {A : Type ℓ} (f : List ℕ → Result ProtocolError A) (s rest : List ℕ) (a : A)
    → has_crlf s ≡ false
    → f s ≡ ok a
    → on_line f (s ++ 13 ∷ 10 ∷ rest) ≡ ok (a, length s + 2)
on_line-crlf f s rest a h e = rw (read_line-crlf s rest h, e)

pub parse_payload-crlf :
    (b rest : List ℕ)
    → parse_payload (length b) (b ++ 13 ∷ 10 ∷ rest) ≡ ok (bulk (some b), length b + 2)
unfolding parse_payload
parse_payload-crlf b rest =
    let enough : ltb (length (b ++ 13 ∷ 10 ∷ rest)) (length b + 2) ≡ false =
      ground (arith, length-append b (13 ∷ 10 ∷ rest)) in
    rw (
      enough,
      drop-append_eq (length b) b (13 ∷ 10 ∷ rest) refl,
      take-append_eq (length b) b (13 ∷ 10 ∷ rest) refl,
    )

pub with_header-nat {ℓ} :
    {A : Type ℓ} (body : ℤ → Reader A) (n : ℕ) (rest : List ℕ)
    → n < 2 ^ 63
    → with_header body (print_nat n ++ 13 ∷ 10 ∷ rest)
      ≡ after (length (print_nat n) + 2) (body (pos n) rest)
unfolding print_int
with_header-nat body n rest h = with_header-int body (pos n) rest h
