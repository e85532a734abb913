-- ===== src/Protocol/Command/Arguments.antt =====
-- crates/kamino-protocol/src/command.rs: the helpers of the per-command parsers. The lists of
-- arguments here are without the verb.
use Prim.Native.String.{String}
use kamino.Prelude.{ℕ, List, [], ◌∷◌, Option, none, some, length, if◌then◌else◌}
use kamino.Prelude.Int.{ℤ}
use kamino.Protocol.Error.{
  Result, ok, err, CommandError, wrong_arity, invalid_argument, exactly, at_least, not_utf8,
  ArgumentFault, not_an_integer, not_a_float,
}
use kamino.Protocol.Text.{is_utf8, parse_unsigned, parse_signed}
use kamino.Protocol.Codec.{FloatText}
use kamino.Protocol.Command.{Bytes, Command}

abbrev pub Parsed : Type 0
Parsed = Result CommandError Command

-- `require_exact` and the `next` calls behind it.
abbrev pub exactly_0 : String → Command → List Bytes → Parsed
exactly_0 command make [] = ok make
exactly_0 command make args = err (wrong_arity command (exactly 0) (length args))

abbrev pub exactly_1 : String → (Bytes → Parsed) → List Bytes → Parsed
exactly_1 command make (a ∷ []) = make a
exactly_1 command make args = err (wrong_arity command (exactly 1) (length args))

abbrev pub exactly_2 : String → (Bytes → Bytes → Parsed) → List Bytes → Parsed
exactly_2 command make (a ∷ b ∷ []) = make a b
exactly_2 command make args = err (wrong_arity command (exactly 2) (length args))

abbrev pub exactly_3 : String → (Bytes → Bytes → Bytes → Parsed) → List Bytes → Parsed
exactly_3 command make (a ∷ b ∷ c ∷ []) = make a b c
exactly_3 command make args = err (wrong_arity command (exactly 3) (length args))

abbrev pub exactly_4 : String → (Bytes → Bytes → Bytes → Bytes → Parsed) → List Bytes → Parsed
exactly_4 command make (a ∷ b ∷ c ∷ d ∷ []) = make a b c d
exactly_4 command make args = err (wrong_arity command (exactly 4) (length args))

-- `require_at_least`, and what stands behind the arguments that it asks for.
abbrev pub at_least_1 : String → (Bytes → List Bytes → Parsed) → List Bytes → Parsed
at_least_1 command make (a ∷ rest) = make a rest
at_least_1 command make args = err (wrong_arity command (at_least 1) (length args))

abbrev pub at_least_2 : String → (Bytes → Bytes → List Bytes → Parsed) → List Bytes → Parsed
at_least_2 command make (a ∷ b ∷ rest) = make a b rest
at_least_2 command make args = err (wrong_arity command (at_least 2) (length args))

abbrev pub at_least_3 : String → (Bytes → Bytes → Bytes → List Bytes → Parsed) → List Bytes → Parsed
at_least_3 command make (a ∷ b ∷ c ∷ rest) = make a b c rest
at_least_3 command make args = err (wrong_arity command (at_least 3) (length args))

abbrev pub or_fault {ℓ} : {A : Type ℓ} → String → ArgumentFault → Option A → Result CommandError A
or_fault command fault none = err (invalid_argument command fault)
or_fault command fault (some a) = ok a

-- `from_utf8`, and then `parse` by `read`.
unfoldable pub parse_text {ℓ} :
    {A : Type ℓ}
    → (Bytes → Option A)
    → String
    → (Bytes → ArgumentFault)
    → ArgumentFault
    → Bytes
    → Result CommandError A
parse_text read command invalid undecodable s =
    if is_utf8 s
    then or_fault command (invalid s) (read s)
    else err (invalid_argument command undecodable)

-- `parse_int` at an unsigned type of `bits` bits.
unfoldable pub parse_uint : ℕ → Bytes → String → String → Result CommandError ℕ
unfolding parse_text
parse_uint bits s command field =
    parse_text (parse_unsigned bits) command (not_an_integer field) (not_utf8 field) s

-- `parse_int` at `i64`.
unfoldable pub parse_int : Bytes → String → String → Result CommandError ℤ
unfolding parse_text
parse_int s command field =
    parse_text parse_signed command (not_an_integer field) (not_utf8 field) s

unfoldable pub parse_float : FloatText → Bytes → String → String → Result CommandError ℕ
unfolding parse_text
parse_float f64 s command field =
    parse_text f64.parse command (not_a_float field) (not_utf8 field) s
