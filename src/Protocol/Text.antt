-- ===== src/Protocol/Text.antt =====
-- Text as the list of its bytes: what the protocol crate uses of Rust's `str`, that is
-- `from_utf8`, the decimal text of an integer and `parse`.
pub mod Digits
use Prim.Native.Char.{code}
use Prim.Native.String.{String}
use kamino.Prelude.{
  ℕ, zero, suc, ◌+◌, ◌-◌, ◌*◌, ◌/◌, ◌%◌, ◌^◌, Bool, true, false, ◌&&◌, ◌||◌, List, [], ◌∷◌, Option,
  none, some, map, ltb, leb, ◌==◌, if◌then◌else◌,
}
use kamino.Prelude.Int.{ℤ, pos, negsuc}

abbrev pub in_range : ℕ → ℕ → ℕ → Bool
in_range lo hi b = leb lo b && leb b hi

-- The bytes of an ASCII text.
abbrev pub codes : String → List ℕ
codes String.[] = []
codes (String.◌∷◌ c s) = code c ∷ codes s

unfoldable pub same_text : List ℕ → List ℕ → Bool
same_text [] [] = true
same_text (a ∷ as') (b ∷ bs) = a == b && same_text as' bs
same_text _ _ = false

abbrev pub to_lower : ℕ → ℕ
to_lower c = if in_range b'A' b'Z' c then c + 32 else c

abbrev pub to_upper : ℕ → ℕ
to_upper c = if in_range b'a' b'z' c then c - 32 else c

unfoldable pub eq_ignore_ascii_case : List ℕ → List ℕ → Bool
unfolding same_text
eq_ignore_ascii_case a b = same_text (map to_lower a) (map to_lower b)

-- What the first byte of a character asks of the following: their number, and the range of the
-- first of them.
unfoldable pub lead : ℕ → Option (ℕ × ℕ × ℕ)
lead b =
    if ltb b 0x80
    then some (0, 0x80, 0xBF)
    else if in_range 0xC2 0xDF b
    then some (1, 0x80, 0xBF)
    else if b == 0xE0
    then some (2, 0xA0, 0xBF)
    else if b == 0xED
    then some (2, 0x80, 0x9F)
    else if in_range 0xE1 0xEF b
    then some (2, 0x80, 0xBF)
    else if b == 0xF0
    then some (3, 0x90, 0xBF)
    else if in_range 0xF1 0xF3 b
    then some (3, 0x80, 0xBF)
    else if b == 0xF4
    then some (3, 0x80, 0x8F)
    else none

-- `k` bytes of a character are still to come, the next of them between `lo` and `hi`.
unfoldable pub utf8_from : ℕ → ℕ → ℕ → List ℕ → Bool
unfolding lead
utf8_from zero lo hi [] = true
utf8_from (suc k) lo hi [] = false
utf8_from zero lo hi (b ∷ bs) = elim (lead b) [
  | none ↦ false
  | some (k, lo', hi') ↦ utf8_from k lo' hi' bs
]
utf8_from (suc k) lo hi (b ∷ bs) = in_range lo hi b && utf8_from k 0x80 0xBF bs

unfoldable pub is_utf8 : List ℕ → Bool
unfolding utf8_from
is_utf8 s = utf8_from 0 0x80 0xBF s

-- The text has a carriage return or a line feed.
unfoldable pub has_crlf : List ℕ → Bool
has_crlf [] = false
has_crlf (c ∷ cs) = c == 13 || c == 10 || has_crlf cs

abbrev pub is_digit : ℕ → Bool
is_digit c = in_range b'0' b'9' c

-- A text of digits.
unfoldable pub all_digits : List ℕ → Bool
all_digits [] = true
all_digits (c ∷ cs) = is_digit c && all_digits cs

-- The decimal digits of `n` in front of a text. A number has fewer digits than its successor
-- says, so that the fuel of `print_nat` is enough.
unfoldable pub print_digits : ℕ → ℕ → List ℕ → List ℕ
print_digits zero n acc = acc
print_digits (suc fuel) n acc =
    let digit : ℕ = b'0' + n % 10 in
    let rest = print_digits fuel (n / 10) (digit ∷ acc) in if ltb n 10 then digit ∷ acc else rest

unfoldable pub print_nat : ℕ → List ℕ
unfolding print_digits
print_nat n = print_digits (suc n) n []

unfoldable pub print_int : ℤ → List ℕ
unfolding print_nat
print_int (pos n) = print_nat n
print_int (negsuc n) = b'-' ∷ print_nat (suc n)

-- The value of a text of digits after the digits that stand for `acc`.
unfoldable pub parse_digits : ℕ → List ℕ → Option ℕ
parse_digits acc [] = some acc
parse_digits acc (c ∷ cs) =
    let rest = parse_digits (10 * acc + (c - b'0')) cs in if is_digit c then rest else none

-- There has to be a digit.
unfoldable pub parse_nat : List ℕ → Option ℕ
unfolding parse_digits
parse_nat [] = none
parse_nat (c ∷ cs) = parse_digits 0 (c ∷ cs)

abbrev pub below : ℕ → Option ℕ → Option ℕ
below bound none = none
below bound (some n) = if ltb n bound then some n else none

-- `parse::<u64>()` and the like: a text that overflows is refused, as is one with a minus sign.
unfoldable pub parse_unsigned : ℕ → List ℕ → Option ℕ
unfolding parse_nat
parse_unsigned bits [] = none
parse_unsigned bits (c ∷ cs) =
    below (2 ^ bits) (if c == b'+' then parse_nat cs else parse_nat (c ∷ cs))

abbrev pub negate : ℕ → ℤ
negate zero = pos 0
negate (suc n) = negsuc n

abbrev pub as_pos : Option ℕ → Option ℤ
as_pos none = none
as_pos (some n) = some (pos n)

abbrev pub as_neg : Option ℕ → Option ℤ
as_neg none = none
as_neg (some n) = some (negate n)

-- `parse::<i64>()`
unfoldable pub parse_signed : List ℕ → Option ℤ
unfolding parse_nat
parse_signed [] = none
parse_signed (c ∷ cs) =
    if c == b'-'
    then as_neg (below (2 ^ 63 + 1) (parse_nat cs))
    else if c == b'+'
    then as_pos (below (2 ^ 63) (parse_nat cs))
    else as_pos (below (2 ^ 63) (parse_nat (c ∷ cs)))
