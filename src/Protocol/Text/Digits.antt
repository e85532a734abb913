-- ===== src/Protocol/Text/Digits.antt =====
-- The decimal text of a number reads back as that number.
use kamino.Prelude.{
  ℕ, zero, suc, ◌+◌, ◌-◌, ◌*◌, ◌/◌, ◌%◌, ◌^◌, ◌<◌, ◌≡◌, refl, ◌∙◌, Bool, true, false, List, [], ◌∷◌,
  some, inl, inr, arith, Bool-cases, ltb, ◌==◌,
}
use kamino.Prelude.Int.{ℤ, pos, negsuc, InI64}
use kamino.Protocol.Text.{
  is_digit, all_digits, utf8_from, lead, is_utf8, print_digits, print_nat, print_int, parse_digits,
  parse_nat, parse_unsigned, parse_signed, has_crlf, as_pos, below,
}

parse_digits-print_digits :
    (f n : ℕ) (tail : List ℕ) → n < f → parse_digits 0 (print_digits f n tail) ≡ parse_digits n tail
unfolding parse_digits print_digits
parse_digits-print_digits zero n tail h = absurd (omega arith)
parse_digits-print_digits (suc f) n tail h = elim (Bool-cases (ltb n 10)) [
  | inl last ↦
      let digit : 10 * 0 + (b'0' + n % 10 - b'0') ≡ n = ground arith in
      let valid : is_digit (b'0' + n % 10) ≡ true = ground arith in rw (last, valid, digit)
  | inr more ↦
      let digit : 10 * (n / 10) + (b'0' + n % 10 - b'0') ≡ n = omega arith in
      let valid : is_digit (b'0' + n % 10) ≡ true = ground arith in
      rw more (
        parse_digits-print_digits f (n / 10) ((b'0' + n % 10) ∷ tail) (ground arith)
        ∙ rw (valid, digit))
]

unfoldable pub starts_with_digit : List ℕ → Bool
starts_with_digit [] = false
starts_with_digit (c ∷ cs) = is_digit c

print_digits-all_digits :
    (f n : ℕ) (tail : List ℕ) → all_digits tail ≡ true → all_digits (print_digits f n tail) ≡ true
unfolding print_digits all_digits
print_digits-all_digits zero n tail h = h
print_digits-all_digits (suc f) n tail h =
    ground (arith, print_digits-all_digits f (n / 10) ((b'0' + n % 10) ∷ tail))

print_digits-starts_with_digit :
    (f n : ℕ) (tail : List ℕ) → n < f → starts_with_digit (print_digits f n tail) ≡ true
unfolding print_digits starts_with_digit
print_digits-starts_with_digit zero n tail h = absurd (omega arith)
print_digits-starts_with_digit (suc f) n tail h =
    ground (arith, print_digits-starts_with_digit f (n / 10) ((b'0' + n % 10) ∷ tail))

pub lead-ascii : (c : ℕ) → c < 0x80 → lead c ≡ some (0, 0x80, 0xBF)
unfolding lead
lead-ascii c h = ground arith

pub all_digits-utf8 : (s : List ℕ) → all_digits s ≡ true → utf8_from 0 0x80 0xBF s ≡ true
unfolding all_digits utf8_from
all_digits-utf8 [] h = refl
all_digits-utf8 (c ∷ cs) h =
    let ascii : lead c ≡ some (0, 0x80, 0xBF) = lead-ascii c (ground arith) in
    rw (ascii, utf8_from) (all_digits-utf8 cs (ground arith))

pub all_digits-has_crlf : (s : List ℕ) → all_digits s ≡ true → has_crlf s ≡ false
unfolding all_digits has_crlf
all_digits-has_crlf [] h = refl
all_digits-has_crlf (c ∷ cs) h = ground (arith, all_digits-has_crlf cs)

print_nat-all_digits : (n : ℕ) → all_digits (print_nat n) ≡ true
unfolding print_nat all_digits
print_nat-all_digits n = print_digits-all_digits (suc n) n [] refl

pub print_nat-starts_with_digit : (n : ℕ) → starts_with_digit (print_nat n) ≡ true
unfolding print_nat
print_nat-starts_with_digit n = print_digits-starts_with_digit (suc n) n [] (omega arith)

parse_nat-digits : (s : List ℕ) → starts_with_digit s ≡ true → parse_nat s ≡ parse_digits 0 s
unfolding parse_nat starts_with_digit
parse_nat-digits [] h = cc
parse_nat-digits (c ∷ cs) h = refl

pub parse_nat-print_nat : (n : ℕ) → parse_nat (print_nat n) ≡ some n
unfolding print_nat parse_digits
parse_nat-print_nat n =
    parse_nat-digits (print_nat n) (print_nat-starts_with_digit n)
    ∙ parse_digits-print_digits (suc n) n [] (omega arith)

parse_unsigned-digits :
    (bits : ℕ) (s : List ℕ)
    → starts_with_digit s ≡ true
    → parse_unsigned bits s ≡ below (2 ^ bits) (parse_nat s)
unfolding parse_unsigned starts_with_digit
parse_unsigned-digits bits [] h = cc
parse_unsigned-digits bits (c ∷ cs) h = let plain : (c == b'+') ≡ false = ground arith in rw plain

parse_signed-digits :
    (s : List ℕ)
    → starts_with_digit s ≡ true
    → parse_signed s ≡ as_pos (below (2 ^ 63) (parse_nat s))
unfolding parse_signed starts_with_digit
parse_signed-digits [] h = cc
parse_signed-digits (c ∷ cs) h =
    let unsigned : (c == b'-') ≡ false = ground arith in
    let plain : (c == b'+') ≡ false = ground arith in rw (unsigned, plain)

pub parse_unsigned-print_nat :
    (bits n : ℕ) → n < 2 ^ bits → parse_unsigned bits (print_nat n) ≡ some n
parse_unsigned-print_nat bits n h =
    parse_unsigned-digits bits (print_nat n) (print_nat-starts_with_digit n)
    ∙ rw (parse_nat-print_nat n) (ground arith)

pub parse_signed-print_int : (v : ℤ) → InI64 v → parse_signed (print_int v) ≡ some v
unfolding print_int parse_signed
parse_signed-print_int (pos n) h =
    parse_signed-digits (print_nat n) (print_nat-starts_with_digit n)
    ∙ rw (parse_nat-print_nat n) (ground arith)
parse_signed-print_int (negsuc n) h = rw (parse_nat-print_nat (suc n)) (ground arith)

pub print_nat-has_crlf : (n : ℕ) → has_crlf (print_nat n) ≡ false
print_nat-has_crlf n = all_digits-has_crlf (print_nat n) (print_nat-all_digits n)

pub print_nat-is_utf8 : (n : ℕ) → is_utf8 (print_nat n) ≡ true
unfolding is_utf8
print_nat-is_utf8 n = all_digits-utf8 (print_nat n) (print_nat-all_digits n)

pub print_int-has_crlf : (v : ℤ) → has_crlf (print_int v) ≡ false
unfolding print_int has_crlf
print_int-has_crlf (pos n) = print_nat-has_crlf n
print_int-has_crlf (negsuc n) = print_nat-has_crlf (suc n)

pub print_int-is_utf8 : (v : ℤ) → is_utf8 (print_int v) ≡ true
unfolding print_int is_utf8 utf8_from lead
print_int-is_utf8 (pos n) = print_nat-is_utf8 n
print_int-is_utf8 (negsuc n) = all_digits-utf8 (print_nat (suc n)) (print_nat-all_digits (suc n))
