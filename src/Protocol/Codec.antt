-- ===== src/Protocol/Codec.antt =====
-- crates/kamino-protocol/src/codec.rs: reading a frame off a receive buffer, and `decode`.
-- A text is the list of its bytes. `usize` has 64 bits, so that the casts of a length lose nothing.
pub mod Encode
pub mod Grammar
pub mod RoundTrip
pub mod Doubles
pub mod Yields
pub mod Written
pub mod Limits
pub mod Stream
pub mod Inline
pub mod Steady
pub mod Lines
use kamino.Prelude.{
  ℕ, zero, suc, ◌+◌, ◌*◌, Bool, true, false, ◌&&◌, ◌||◌, List, [], ◌∷◌, Option, none, some, ltb,
  leb, ◌==◌, if◌then◌else◌, length, take, drop,
}
use kamino.Prelude.Int.{ℤ, pos, negsuc}
use kamino.Protocol.Frame.{
  Frame, Frames, Pairs, simple_string, error, integer, bulk, null_array, array, map_frame,
  set_frame, push_frame, boolean, double, null, big_number, no_frames, more_frames, no_pairs,
  more_pairs,
}
use kamino.Protocol.Error.{
  Result, ok, err, ◌>>=◌, Counted, array_length, map_length, set_length, push_length, bulk_length,
  Reason, leading_byte, nesting_deeper, simple_string_not_utf8, error_not_utf8, integer_not_utf8,
  double_not_utf8, big_number_not_utf8, bad_integer, bad_double, bad_big_number, invalid_boolean,
  null_with_payload, missing_crlf, negative_length, resp3_only_prefix, unknown_prefix,
  ProtocolError, incomplete, invalid_encoding, bulk_too_large, array_too_large,
  inline_command_rejected,
}
use kamino.Protocol.Text.{
  is_utf8, is_digit, all_digits, in_range, same_text, to_lower, parse_signed,
}

pub data ProtocolVersion : Type 0 where
  resp2 resp3 : ProtocolVersion

abbrev pub default_max_bulk_size : ℕ
default_max_bulk_size = 512 * 1024 * 1024

abbrev pub default_max_array_len : ℕ
default_max_array_len = 1048576

abbrev pub max_depth : ℕ
max_depth = 32

pub record RespCodec : Type 0 where
  pub version : ProtocolVersion
  pub max_bulk_size : ℕ
  pub max_array_len : ℕ

unfoldable pub new : RespCodec
new = record {
  version = resp2;
  max_bulk_size = default_max_bulk_size;
  max_array_len = default_max_array_len;
}

unfoldable pub upgrade_to_resp3 : RespCodec → RespCodec
upgrade_to_resp3 c = record c { version = resp3 }

unfoldable pub set_max_bulk_size : RespCodec → ℕ → RespCodec
set_max_bulk_size c bytes = record c { max_bulk_size = bytes }

unfoldable pub set_max_array_len : RespCodec → ℕ → RespCodec
set_max_array_len c len = record c { max_array_len = len }

-- `f64`'s `Display` and `parse`, over bit patterns. They are code of the standard library that has
-- no model here.
pub record FloatText : Type 0 where
  pub print : ℕ → List ℕ
  pub parse : List ℕ → Option ℕ

abbrev pub infinity_bits : ℕ
infinity_bits = 0x7FF0000000000000

abbrev pub negative_infinity_bits : ℕ
negative_infinity_bits = 0xFFF0000000000000

-- `f64::NAN`
abbrev pub nan_bits : ℕ
nan_bits = 0x7FF8000000000000

-- The first bytes that the protocol knows.
pub data Resp3Prefix : Type 0 where
  percent tilde greater hash comma underscore paren : Resp3Prefix

pub data Prefix : Type 0 where
  plus minus colon dollar star : Prefix
  resp3_prefix : Resp3Prefix → Prefix
  other : Prefix

unfoldable pub prefix_of : ℕ → Prefix
prefix_of b =
    if b == b'+'
    then plus
    else if b == b'-'
    then minus
    else if b == b':'
    then colon
    else if b == b'$'
    then dollar
    else if b == b'*'
    then star
    else if b == b'%'
    then resp3_prefix percent
    else if b == b'~'
    then resp3_prefix tilde
    else if b == b'>'
    then resp3_prefix greater
    else if b == b'#'
    then resp3_prefix hash
    else if b == b','
    then resp3_prefix comma
    else if b == b'_'
    then resp3_prefix underscore
    else if b == b'('
    then resp3_prefix paren
    else other

abbrev pub is_resp3 : ProtocolVersion → Bool
is_resp3 resp2 = false
is_resp3 resp3 = true

unfoldable pub is_known_prefix : Prefix → ProtocolVersion → Bool
is_known_prefix plus version = true
is_known_prefix minus version = true
is_known_prefix colon version = true
is_known_prefix dollar version = true
is_known_prefix star version = true
is_known_prefix other version = false
is_known_prefix (resp3_prefix _) version = is_resp3 version

-- What a reader makes of the front of a buffer: a value and the number of bytes it took.
abbrev pub Reader {ℓ} : Type ℓ → Type ℓ
Reader A = List ℕ → Result ProtocolError (A × ℕ)

-- `map(|(f, n)| (f, extra + n))`
abbrev pub after {ℓ} :
    {A : Type ℓ} → ℕ → Result ProtocolError (A × ℕ) → Result ProtocolError (A × ℕ)
after extra (ok (a, n)) = ok (a, extra + n)
after extra (err e) = err e

-- The bytes before the next CR LF.
unfoldable pub read_line : Reader (List ℕ)
read_line [] = err incomplete
read_line (a ∷ []) = err incomplete
read_line (a ∷ b ∷ rest) =
    let later = read_line (b ∷ rest) in
    if (a == 13) && (b == 10)
    then ok ([], 2)
    else later >>= λ (r : List ℕ × ℕ). ok (a ∷ r.0, 1 + r.1)

-- What a line of its own makes of its bytes.
abbrev pub on_line {ℓ} : {A : Type ℓ} → (List ℕ → Result ProtocolError A) → Reader A
on_line f buf = read_line buf >>= λ (r : List ℕ × ℕ). f r.0 >>= λ a. ok (a, r.1)

abbrev pub guard {ℓ} : {A : Type ℓ} → Bool → Reason → A → Result ProtocolError A
guard true reason a = ok a
guard false reason a = err (invalid_encoding reason)

abbrev pub or_invalid {ℓ} : {A : Type ℓ} → Option A → Reason → Result ProtocolError A
or_invalid none reason = err (invalid_encoding reason)
or_invalid (some a) reason = ok a

unfoldable pub parse_i64 : List ℕ → Result ProtocolError ℤ
parse_i64 line = guard (is_utf8 line) integer_not_utf8 line >>= λ (s : List ℕ).
    or_invalid (parse_signed s) (bad_integer s)

-- `rest[ulen] != b'\r' || rest[ulen + 1] != b'\n'`, at the bytes behind the payload
abbrev pub starts_with_crlf : List ℕ → Bool
starts_with_crlf (a ∷ b ∷ rest) = (a == 13) && (b == 10)
starts_with_crlf _ = false

-- The payload of a bulk string whose header is read.
unfoldable pub parse_payload : ℕ → Reader Frame
parse_payload len rest =
    if ltb (length rest) (len + 2)
    then err incomplete
    else if starts_with_crlf (drop len rest)
    then ok (bulk (some (take len rest)), len + 2)
    else err (invalid_encoding missing_crlf)

-- -1 stands for null, any other number below zero is refused.
unfoldable pub parse_bulk_body : ℕ → ℤ → Reader Frame
unfolding parse_payload
parse_bulk_body max_bulk (negsuc zero) rest = ok (bulk none, 0)
parse_bulk_body max_bulk (negsuc (suc n)) rest =
    err (invalid_encoding (negative_length bulk_length (negsuc (suc n))))
parse_bulk_body max_bulk (pos len) rest =
    if ltb max_bulk len then err (bulk_too_large len max_bulk) else parse_payload len rest

-- A header line, and the rest of the frame after it.
unfoldable pub with_header {ℓ} : {A : Type ℓ} → (ℤ → Reader A) → Reader A
unfolding read_line parse_i64
with_header body buf = read_line buf >>= λ (r : List ℕ × ℕ).
    parse_i64 r.0 >>= λ (n : ℤ). after r.1 (body n (drop r.1 buf))

unfoldable pub parse_bulk : ℕ → Reader Frame
unfolding with_header parse_bulk_body
parse_bulk max_bulk = with_header (parse_bulk_body max_bulk)

-- `count` frames one after the other.
unfoldable pub parse_frames : Reader Frame → ℕ → Reader Frames
parse_frames item zero buf = ok (no_frames, 0)
parse_frames item (suc count) buf = item buf >>= λ (r : Frame × ℕ).
    parse_frames item count (drop r.1 buf) >>= λ (s : Frames × ℕ).
    ok (more_frames r.0 s.0, r.1 + s.1)

unfoldable pub parse_pairs : Reader Frame → ℕ → Reader Pairs
parse_pairs item zero buf = ok (no_pairs, 0)
parse_pairs item (suc count) buf = item buf >>= λ (k : Frame × ℕ).
    item (drop k.1 buf) >>= λ (v : Frame × ℕ).
    parse_pairs item count (drop (k.1 + v.1) buf) >>= λ (s : Pairs × ℕ).
    ok (more_pairs k.0 v.0 s.0, k.1 + v.1 + s.1)

abbrev pub wrap {ℓ κ} :
    {A : Type ℓ} {B : Type κ}
    → (A → B)
    → Result ProtocolError (A × ℕ)
    → Result ProtocolError (B × ℕ)
wrap f (ok (a, n)) = ok (f a, n)
wrap f (err e) = err e

-- The elements of an array, a set, a push frame or a map whose header is read: no number below
-- zero, and none above the limit.
unfoldable pub parse_counted {ℓ} :
    {A : Type ℓ} → Counted → (ℕ → Reader A) → (A → Frame) → ℕ → ℤ → Reader Frame
parse_counted kind elements make max_array (negsuc n) buf =
    err (invalid_encoding (negative_length kind (negsuc n)))
parse_counted kind elements make max_array (pos n) buf =
    if ltb max_array n then err (array_too_large n max_array) else wrap make (elements n buf)

unfoldable pub parse_array_body : Reader Frame → ℕ → ℤ → Reader Frame
unfolding parse_counted parse_frames
parse_array_body item max_array (negsuc zero) buf = ok (null_array, 0)
parse_array_body item max_array n buf =
    parse_counted array_length (parse_frames item) array max_array n buf

unfoldable pub parse_array : Reader Frame → ℕ → Reader Frame
unfolding with_header parse_array_body
parse_array item max_array = with_header (parse_array_body item max_array)

unfoldable pub parse_set : Reader Frame → ℕ → Reader Frame
unfolding with_header parse_counted parse_frames
parse_set item max_array =
    with_header (parse_counted set_length (parse_frames item) set_frame max_array)

unfoldable pub parse_push : Reader Frame → ℕ → Reader Frame
unfolding with_header parse_counted parse_frames
parse_push item max_array =
    with_header (parse_counted push_length (parse_frames item) push_frame max_array)

unfoldable pub parse_map : Reader Frame → ℕ → Reader Frame
unfolding with_header parse_counted parse_pairs
parse_map item max_array =
    with_header (parse_counted map_length (parse_pairs item) map_frame max_array)

unfoldable pub parse_boolean : List ℕ → Result ProtocolError Frame
parse_boolean (c ∷ []) =
    if c == b't'
    then ok (boolean true)
    else if c == b'f'
    then ok (boolean false)
    else err (invalid_encoding invalid_boolean)
parse_boolean _ = err (invalid_encoding invalid_boolean)

unfoldable pub parse_null : List ℕ → Result ProtocolError Frame
parse_null [] = ok null
parse_null (c ∷ cs) = err (invalid_encoding null_with_payload)

-- The texts of the values that have no decimals.
unfoldable pub special_double : List ℕ → Option ℕ
unfolding same_text
special_double s =
    if same_text s (b'i' ∷ b'n' ∷ b'f' ∷ []) || same_text s (b'+' ∷ b'i' ∷ b'n' ∷ b'f' ∷ [])
    then some infinity_bits
    else if same_text s (b'-' ∷ b'i' ∷ b'n' ∷ b'f' ∷ [])
    then some negative_infinity_bits
    else if same_text s (b'n' ∷ b'a' ∷ b'n' ∷ [])
    then some nan_bits
    else none

abbrev pub or_parse : FloatText → List ℕ → Option ℕ → Result ProtocolError Frame
or_parse f64 s (some d) = ok (double d)
or_parse f64 s none = or_invalid (f64.parse s) (bad_double s) >>= λ (d : ℕ). ok (double d)

unfoldable pub parse_double : FloatText → List ℕ → Result ProtocolError Frame
parse_double f64 line =
    guard (is_utf8 line) double_not_utf8 line >>= λ (s : List ℕ). or_parse f64 s (special_double s)

-- A sign is allowed in front of the digits, and no digit is asked for behind it.
unfoldable pub is_big_number : List ℕ → Bool
unfolding all_digits
is_big_number [] = false
is_big_number (c ∷ cs) = (is_digit c || c == b'+' || c == b'-') && all_digits cs

unfoldable pub parse_big_number : List ℕ → Result ProtocolError Frame
unfolding is_big_number
parse_big_number line = guard (is_utf8 line) big_number_not_utf8 line >>= λ (s : List ℕ).
    guard (is_big_number s) (bad_big_number s) (big_number s)

abbrev pub text_line : Reason → (List ℕ → Frame) → List ℕ → Result ProtocolError Frame
text_line reason make line = guard (is_utf8 line) reason (make line)

unfoldable pub parse_resp3 : FloatText → RespCodec → Reader Frame → Resp3Prefix → Reader Frame
unfolding read_line parse_set parse_push parse_map parse_boolean parse_null parse_double
    parse_big_number
parse_resp3 f64 c item percent = parse_map item c.max_array_len
parse_resp3 f64 c item tilde = parse_set item c.max_array_len
parse_resp3 f64 c item greater = parse_push item c.max_array_len
parse_resp3 f64 c item hash = on_line parse_boolean
parse_resp3 f64 c item comma = on_line (parse_double f64)
parse_resp3 f64 c item underscore = on_line parse_null
parse_resp3 f64 c item paren = on_line parse_big_number

-- The frame behind its first byte `b`. `item` reads a frame one level deeper.
unfoldable pub parse_rest : FloatText → RespCodec → Reader Frame → Prefix → ℕ → Reader Frame
unfolding read_line parse_i64 parse_bulk parse_array parse_resp3
parse_rest f64 c item plus b = on_line (text_line simple_string_not_utf8 simple_string)
parse_rest f64 c item minus b = on_line (text_line error_not_utf8 error)
parse_rest f64 c item colon b = on_line λ line. parse_i64 line >>= λ (v : ℤ). ok (integer v)
parse_rest f64 c item dollar b = parse_bulk c.max_bulk_size
parse_rest f64 c item star b = parse_array item c.max_array_len
parse_rest f64 c item (resp3_prefix p) b = λ rest.
    if is_resp3 c.version
    then parse_resp3 f64 c item p rest
    else err (invalid_encoding (resp3_only_prefix b))
parse_rest f64 c item other b = λ rest. err (invalid_encoding (unknown_prefix b))

-- `levels` counts down where the program's `depth` counts up: it is `MAX_DEPTH + 1 - depth`, and
-- zero exactly where `depth > MAX_DEPTH`.
unfoldable pub parse_frame : FloatText → RespCodec → ℕ → Reader Frame
unfolding prefix_of parse_rest
parse_frame f64 c zero buf = err (invalid_encoding (nesting_deeper max_depth))
parse_frame f64 c (suc levels) [] = err incomplete
parse_frame f64 c (suc levels) (b ∷ rest) =
    after 1 (parse_rest f64 c (parse_frame f64 c levels) (prefix_of b) b rest)

unfoldable pub is_ping : ℕ → ℕ → ℕ → ℕ → Bool
is_ping a b c d =
    to_lower a == b'p' && to_lower b == b'i' && to_lower c == b'n' && to_lower d == b'g'

-- What follows the four letters ends an inline command: the bytes that this takes.
unfoldable pub ends_line : List ℕ → Option ℕ
ends_line [] = none
ends_line (e ∷ []) = if e == 10 then some 5 else none
ends_line (e ∷ f ∷ rest) =
    if e == 10 then some 5 else if (e == 13) && (f == 10) then some 6 else none

-- The number of bytes of an inline `PING`.
unfoldable pub match_inline_ping : List ℕ → Option ℕ
unfolding is_ping ends_line
match_inline_ping (a ∷ b ∷ c ∷ d ∷ rest) = if is_ping a b c d then ends_line rest else none
match_inline_ping _ = none

abbrev pub is_ascii_alphabetic : ℕ → Bool
is_ascii_alphabetic b = in_range b'A' b'Z' b || in_range b'a' b'z' b

unfoldable pub ping_frame : Frame
ping_frame = array (more_frames (bulk (some (b'P' ∷ b'I' ∷ b'N' ∷ b'G' ∷ []))) no_frames)

-- The answer of `decode`: a frame with what is left of the buffer, or that it waits for bytes.
pub data Decoded : Type 0 where
  frame : Frame → List ℕ → Decoded
  wait : Decoded
  refused : ProtocolError → Decoded

abbrev pub advance : List ℕ → Result ProtocolError (Frame × ℕ) → Decoded
advance buf (ok (f, n)) = frame f (drop n buf)
advance buf (err incomplete) = wait
advance buf (err e) = refused e

unfoldable pub decode_framed : FloatText → RespCodec → List ℕ → Decoded
unfolding is_known_prefix prefix_of parse_frame
decode_framed f64 c [] = wait
decode_framed f64 c (b ∷ rest) =
    if is_known_prefix (prefix_of b) c.version
    then advance (b ∷ rest) (parse_frame f64 c (suc max_depth) (b ∷ rest))
    else if is_ascii_alphabetic b
    then refused inline_command_rejected
    else refused (invalid_encoding (leading_byte b))

abbrev pub or_ping : List ℕ → Option ℕ → Decoded → Decoded
or_ping buf (some n) framed = frame ping_frame (drop n buf)
or_ping buf none framed = framed

unfoldable pub decode : FloatText → RespCodec → List ℕ → Decoded
decode f64 c buf = or_ping buf (match_inline_ping buf) (decode_framed f64 c buf)
