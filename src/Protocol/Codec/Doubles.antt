-- ===== src/Protocol/Codec/Doubles.antt =====
-- The texts of a double and of a big number read back.
use kamino.Prelude.{
  ℕ, ◌^◌, ◌<◌, ◌≡◌, refl, sym, ◌∙◌, ap, true, List, [], ◌∷◌, some, arith, ◌==◌, Bool-cases, inl,
  inr,
}
use kamino.Protocol.Frame.{double}
use kamino.Protocol.Error.{ok}
use kamino.Protocol.Text.{has_crlf, is_utf8, lead, utf8_from, all_digits, same_text}
use kamino.Protocol.Text.Digits.{lead-ascii, all_digits-utf8, all_digits-has_crlf}
use kamino.Protocol.Codec.{
  FloatText, nan_bits, special_double, infinity_bits, negative_infinity_bits, is_big_number,
  parse_double,
}
use kamino.Protocol.Codec.Encode.{double_text, is_nan, is_infinite}
use kamino.Protocol.Codec.Grammar.{IsFloatText, IsLine}

pub double_text-IsLine : (f64 : FloatText) (d : ℕ) → IsFloatText f64 → IsLine (double_text f64 d)
unfolding double_text is_utf8 has_crlf
double_text-IsLine f64 d laws = ground (arith, laws.is_line d)

parse_double-special :
    (f64 : FloatText) (d : ℕ) (s : List ℕ)
    → is_utf8 s ≡ true
    → special_double s ≡ some d
    → parse_double f64 s ≡ ok (double d)
unfolding parse_double
parse_double-special f64 d s valid e = rw (valid, e)

pub parse_double-double_text :
    (f64 : FloatText) (d : ℕ)
    → IsFloatText f64
    → d < 2 ^ 64
    → (is_nan d ≡ true → d ≡ nan_bits)
    → parse_double f64 (double_text f64 d) ≡ ok (double d)
unfolding double_text parse_double
parse_double-double_text f64 d laws range one_nan = elim (Bool-cases (is_nan d)) [
  | inl nan ↦
      let e : nan_bits ≡ d = sym (one_nan nan) in
      let line : List ℕ = b'n' ∷ b'a' ∷ b'n' ∷ [] in
      let special : special_double line ≡ some nan_bits = unfold special_double same_text in refl in
      rw nan (parse_double-special f64 d line (unfold is_utf8 lead in refl) (special ∙ ap some e))
  | inr number ↦ elim (Bool-cases (is_infinite d)) [
    | inl infinite ↦ elim (Bool-cases (d == infinity_bits)) [
      | inl positive ↦
          let e : infinity_bits ≡ d = ground arith in
          let line : List ℕ = b'i' ∷ b'n' ∷ b'f' ∷ [] in
          let special : special_double line ≡ some infinity_bits =
            unfold special_double same_text in refl in
          rw (number, infinite, positive)
            (parse_double-special f64 d line (unfold is_utf8 lead in refl) (special ∙ ap some e))
      | inr other ↦
          let e : negative_infinity_bits ≡ d = ground arith in
          let line : List ℕ = b'-' ∷ b'i' ∷ b'n' ∷ b'f' ∷ [] in
          let special : special_double line ≡ some negative_infinity_bits =
            unfold special_double same_text in refl in
          rw (number, infinite, other)
            (parse_double-special f64 d line (unfold is_utf8 lead in refl) (special ∙ ap some e))
    ]
    | inr finite ↦ rw (
      number,
      finite,
      (laws.is_line d).0,
      laws.not_special d number finite,
      laws.reads_back d range number finite,
    )
  ]
]

pub is_big_number-IsLine : (s : List ℕ) → is_big_number s ≡ true → IsLine s
unfolding is_big_number is_utf8 utf8_from has_crlf
is_big_number-IsLine [] h = cc
is_big_number-IsLine (c ∷ cs) h =
    let ascii : lead c ≡ some (0, 0x80, 0xBF) = lead-ascii c (ground arith) in
    let digits : all_digits cs ≡ true = ground arith in
    (
      rw (ascii, utf8_from) (all_digits-utf8 cs digits),
      ground (arith, all_digits-has_crlf cs digits),
    )
