-- ===== src/Protocol/Command/Values.antt =====
-- The numbers of a command that were written read back.
use Prim.Native.String.{String}
use kamino.Prelude.{
  ℕ, ◌^◌, ◌<◌, ◌≡◌, ◌∙◌, sym, ap, true, Option, some, arith, ◌==◌, Bool-cases, inl, inr,
}
use kamino.Prelude.Int.{ℤ, InI64}
use kamino.Protocol.Error.{ok, ArgumentFault, not_an_integer, not_utf8, not_a_float}
use kamino.Protocol.Text.{print_nat, print_int, is_utf8, parse_unsigned, parse_signed}
use kamino.Protocol.Text.Digits.{
  parse_unsigned-print_nat, parse_signed-print_int, print_nat-is_utf8, print_int-is_utf8,
}
use kamino.Protocol.Codec.{FloatText, nan_bits, infinity_bits, negative_infinity_bits}
use kamino.Protocol.Codec.Encode.{double_text, is_nan, is_infinite}
use kamino.Protocol.Codec.Grammar.{IsFloatText}
use kamino.Protocol.Codec.Doubles.{double_text-IsLine}
use kamino.Protocol.Command.{Bytes}
use kamino.Protocol.Command.Arguments.{parse_text, parse_uint, parse_int, parse_float}
use kamino.Protocol.Command.Print.{ParsesSpecial}

parse_text-ok {ℓ} :
    {A : Type ℓ} (read : Bytes → Option A) (command : String) (invalid : Bytes → ArgumentFault)
    (undecodable : ArgumentFault) (s : Bytes) (a : A)
    → is_utf8 s ≡ true
    → read s ≡ some a
    → parse_text read command invalid undecodable s ≡ ok a
unfolding parse_text
parse_text-ok read command invalid undecodable s a valid e = rw (valid, e)

pub parse_uint-print_nat :
    (bits n : ℕ) (command field : String)
    → n < 2 ^ bits
    → parse_uint bits (print_nat n) command field ≡ ok n
unfolding parse_uint
parse_uint-print_nat bits n command field h =
    parse_text-ok (parse_unsigned bits) command (not_an_integer field) (not_utf8 field)
      (print_nat n) n (print_nat-is_utf8 n) (parse_unsigned-print_nat bits n h)

pub parse_int-print_int :
    (d : ℤ) (command field : String) → InI64 d → parse_int (print_int d) command field ≡ ok d
unfolding parse_int
parse_int-print_int d command field h =
    parse_text-ok parse_signed command (not_an_integer field) (not_utf8 field) (print_int d) d
      (print_int-is_utf8 d) (parse_signed-print_int d h)

parse-double_text :
    (f64 : FloatText) (d : ℕ)
    → IsFloatText f64
    → ParsesSpecial f64
    → d < 2 ^ 64
    → (is_nan d ≡ true → d ≡ nan_bits)
    → f64.parse (double_text f64 d) ≡ some d
unfolding double_text
parse-double_text f64 d laws specials range one_nan = elim (Bool-cases (is_nan d)) [
  | inl nan ↦ rw nan (specials.nan ∙ ap some (sym (one_nan nan)))
  | inr number ↦ elim (Bool-cases (is_infinite d)) [
    | inl infinite ↦ elim (Bool-cases (d == infinity_bits)) [
      | inl positive ↦
          let e : infinity_bits ≡ d = ground arith in
          rw (number, infinite, positive) (specials.inf ∙ ap some e)
      | inr negative ↦
          let e : negative_infinity_bits ≡ d = ground arith in
          rw (number, infinite, negative) (specials.negative_inf ∙ ap some e)
    ]
    | inr finite ↦ rw (number, finite) (laws.reads_back d range number finite)
  ]
]

pub parse_float-double_text :
    (f64 : FloatText) (d : ℕ) (command field : String)
    → IsFloatText f64
    → ParsesSpecial f64
    → d < 2 ^ 64
    → (is_nan d ≡ true → d ≡ nan_bits)
    → parse_float f64 (double_text f64 d) command field ≡ ok d
unfolding parse_float
parse_float-double_text f64 d command field laws specials range one_nan =
    parse_text-ok f64.parse command (not_a_float field) (not_utf8 field) (double_text f64 d) d
      (double_text-IsLine f64 d laws).0 (parse-double_text f64 d laws specials range one_nan)
