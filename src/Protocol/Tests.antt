-- ===== src/Protocol/Tests.antt =====
-- Runs of the protocol crate on concrete bytes, and its theorems at such inputs.
use kamino.Prelude.{
  ℕ, ◌-◌, ◌^◌, ◌<◌, ◌≡◌, refl, Bool, true, false, not, ◌&&◌, List, [], ◌∷◌, ◌++◌, Option, none,
  some, arith, ltb, ◌==◌, if◌then◌else◌, take, length, Bool-cases, Option-cases, inl, inr,
}
use kamino.Prelude.Int.{pos, negsuc}
use kamino.Protocol.Frame.{
  Frame, simple_string, integer, bulk, array, map_frame, boolean, null, big_number, no_frames,
  more_frames, no_pairs, more_pairs,
}
use kamino.Protocol.Error.{
  ok, err, ProtocolError, bulk_too_large, array_too_large, inline_command_rejected, resp3_required,
  null_kind,
}
use kamino.Protocol.Text.{
  codes, print_nat, parse_nat, is_utf8, parse_signed, parse_unsigned, has_crlf,
}
use kamino.Protocol.Text.Digits.{
  print_nat-is_utf8, print_nat-has_crlf, parse_nat-print_nat, starts_with_digit,
  print_nat-starts_with_digit,
}
use kamino.Protocol.Codec.{
  FloatText, RespCodec, resp2, resp3, default_max_bulk_size, default_max_array_len, special_double,
  nan_bits, parse_frame, frame, refused, decode, match_inline_ping, decode_framed, ping_frame,
  prefix_of, is_known_prefix,
}
use kamino.Protocol.Codec.Encode.{encode_frame, written, stopped, is_nan, count_frames, count_pairs}
use kamino.Protocol.Codec.Grammar.{height, writable, Receivable, IsFloatText}
use kamino.Protocol.Codec.Written.{encode_frame-stopped}
use kamino.Protocol.Codec.Limits.{Admissible, parse_frame-Admissible, parse_frame-too_large}
use kamino.Protocol.Codec.Inline.{PingLine, by_lf, as_upper, as_lower, decode-split_ping}
use kamino.Protocol.Codec.Stream.{decode-encode_frame, decode-append, decode-length, extend}
use kamino.Protocol.Command.{Bytes, Command, dm_put, no_put_options}
use kamino.Protocol.Command.Arguments.{parse_uint}
use kamino.Protocol.Command.Checked.{Holds}
use kamino.Protocol.Command.Parse.{parse}
use kamino.Protocol.Command.Print.{to_frame, parts, IsSendable, ParsesSpecial}
use kamino.Protocol.Command.RoundTrip.{parse-to_frame}
use kamino.Protocol.Command.Accepted.{ReadsBits, parse-IsSendable, parse-to_frame-parse}
use kamino.Protocol.Wire.{parse-decode-encode_frame}

-- A text for each bit pattern: the pattern in decimals.
unfoldable is_bits : ℕ → Bool
is_bits d = ltb d (2 ^ 64) && not (is_nan d)

abbrev checked : Option ℕ → Option ℕ
checked none = none
checked (some d) = if is_bits d then some d else none

abbrev or_checked : Option ℕ → List ℕ → Option ℕ
or_checked (some d) s = some d
or_checked none s = checked (parse_nat s)

abbrev floats : FloatText
floats = record { print = print_nat; parse = λ s. or_checked (special_double s) s }

digits-not_special : (s : List ℕ) → starts_with_digit s ≡ true → special_double s ≡ none
unfolding special_double starts_with_digit
digits-not_special [] h = cc
digits-not_special (c ∷ cs) h =
    let i : (c == b'i') ≡ false = ground arith in
    let p : (c == b'+') ≡ false = ground arith in
    let m : (c == b'-') ≡ false = ground arith in
    let n : (c == b'n') ≡ false = ground arith in rw (i, p, m, n)

floats-IsFloatText : IsFloatText floats
floats-IsFloatText = record {
  reads_back = λ d range number finite.
      rw (digits-not_special (print_nat d) (print_nat-starts_with_digit d), parse_nat-print_nat d)
        (unfold is_bits in ground arith);
  is_line = λ d. (print_nat-is_utf8 d, print_nat-has_crlf d);
  not_special = λ d number finite. digits-not_special (print_nat d) (print_nat-starts_with_digit d);
}

floats-ParsesSpecial : ParsesSpecial floats
unfolding special_double
floats-ParsesSpecial = record { inf = refl; negative_inf = refl; nan = refl }

checked-bits :
    (o : Option ℕ) → Holds (λ d. (d < 2 ^ 64) × (is_nan d ≡ true → d ≡ nan_bits)) (checked o)
unfolding is_bits
checked-bits none = tt
checked-bits (some d) = elim (Bool-cases (ltb d (2 ^ 64) && not (is_nan d))) [
  | inl good ↦ rw good (ground arith, λ nan. ground arith)
  | inr bad ↦ rw bad tt
]

special-bits :
    (s : List ℕ) (d : ℕ)
    → special_double s ≡ some d
    → (d < 2 ^ 64) × (is_nan d ≡ true → d ≡ nan_bits)
unfolding special_double
special-bits s d e = (ground (arith, e), λ nan. ground (arith, e))

floats-ReadsBits : ReadsBits floats
floats-ReadsBits s = elim (Option-cases (special_double s)) [
  | inl plain ↦ rw plain (checked-bits (parse_nat s))
  | inr (d, special) ↦ rw special (special-bits s d special)
]

abbrev old_codec : RespCodec
old_codec = record {
  version = resp2;
  max_bulk_size = default_max_bulk_size;
  max_array_len = default_max_array_len;
}

abbrev new_codec : RespCodec
new_codec = record {
  version = resp3;
  max_bulk_size = default_max_bulk_size;
  max_array_len = default_max_array_len;
}

-- `DM.PUT m k v EX 10 NX`
abbrev put_command : Command
put_command =
    dm_put (b'm' ∷ []) (b'k' ∷ []) (b'v' ∷ []) (record no_put_options { ex = some 10; nx = true })

put_command-IsSendable : IsSendable put_command
put_command-IsSendable = (omega arith, tt, tt, tt, tt, refl, omega arith)

parse-decode-encode_frame_example :
    (out : List ℕ) × (f : Frame) × (encode_frame floats resp2
        (to_frame floats put_command)
        (1 ∷ 2 ∷ [])
      ≡ written ((1 ∷ 2 ∷ []) ++ out))
    × (decode floats old_codec (out ++ 3 ∷ []) ≡ frame f (3 ∷ []))
    × (parse floats f ≡ ok put_command)
parse-decode-encode_frame_example =
    parse-decode-encode_frame floats old_codec put_command (1 ∷ 2 ∷ []) (3 ∷ []) floats-IsFloatText
      floats-ParsesSpecial put_command-IsSendable (unfold parts in omega arith)

-- A map from a text to an array with a truth value and the largest negative `i64`.
abbrev nested : Frame
nested = map_frame (
    more_pairs (simple_string (b'a' ∷ []))
      (array (more_frames (boolean true) (more_frames (integer (negsuc (2 ^ 63 - 1))) no_frames)))
      no_pairs)

nested-Receivable : Receivable new_codec nested
unfolding count_frames count_pairs is_utf8 has_crlf
nested-Receivable = (
  refl,
  (omega arith, omega arith),
  ((refl, refl), ((omega arith, omega arith), (refl, (omega arith, tt))), tt),
)

decode-encode_frame_example :
    (out : List ℕ) × (encode_frame floats resp3 nested [] ≡ written ([] ++ out))
    × (decode floats new_codec (out ++ 3 ∷ []) ≡ frame nested (3 ∷ []))
decode-encode_frame_example =
    decode-encode_frame floats new_codec nested [] (3 ∷ []) floats-IsFloatText
      (unfold height in omega arith) nested-Receivable

parse-to_frame_example : parse floats (to_frame floats put_command) ≡ ok put_command
parse-to_frame_example =
    parse-to_frame floats put_command floats-IsFloatText floats-ParsesSpecial put_command-IsSendable

-- `:7` and a line end.
abbrev seven : List ℕ
seven = b'7' ∷ 13 ∷ 10 ∷ []

decode-append_example :
    decode floats old_codec ((b':' ∷ seven) ++ b'+' ∷ [])
    ≡ extend (b'+' ∷ []) (decode floats old_codec (b':' ∷ seven))
unfolding decode decode_framed match_inline_ping parse_frame is_known_prefix prefix_of is_utf8
    parse_signed
decode-append_example = decode-append floats old_codec b':' seven (b'+' ∷ []) refl (λ e. cc)

decode-length_example : length {A = ℕ} [] < length (b':' ∷ seven)
unfolding decode decode_framed match_inline_ping parse_frame is_known_prefix prefix_of is_utf8
    parse_signed
decode-length_example = decode-length floats old_codec (b':' ∷ seven) [] (integer (pos 7)) refl

-- An inline `PiNg`, with a line feed.
abbrev ping_line : List ℕ
ping_line = b'P' ∷ b'i' ∷ b'N' ∷ b'g' ∷ 10 ∷ []

ping_line-PingLine : PingLine ping_line
ping_line-PingLine = by_lf as_upper as_lower as_upper as_lower

decode-split_ping_example :
    (decode floats old_codec (take 3 ping_line) ≡ refused inline_command_rejected)
    × (decode floats old_codec (ping_line ++ (b':' ∷ [])) ≡ frame ping_frame (b':' ∷ []))
decode-split_ping_example =
    decode-split_ping floats old_codec (b':' ∷ []) 3 ping_line-PingLine (omega arith) (omega arith)

parse_frame-Admissible_example : Admissible old_codec 33 (integer (pos 7))
unfolding parse_frame is_utf8 parse_signed
parse_frame-Admissible_example =
    parse_frame-Admissible floats old_codec 33 (b':' ∷ seven) (integer (pos 7)) 4 refl

parse_frame-too_large_example :
    (parse_frame floats old_codec 1 (b'$' ∷ (print_nat 999999999 ++ 13 ∷ 10 ∷ []))
      ≡ err (bulk_too_large 999999999 default_max_bulk_size))
    × (parse_frame floats old_codec 1 (b'*' ∷ (print_nat 1048577 ++ 13 ∷ 10 ∷ []))
        ≡ err (array_too_large 1048577 default_max_array_len))
parse_frame-too_large_example =
    parse_frame-too_large floats old_codec 0 999999999 1048577 [] (omega arith) (omega arith)
      (omega arith) (omega arith)

encode_frame-stopped_example :
    (e : ProtocolError) × (part : List ℕ) × (encode_frame floats resp2
        (array (more_frames null no_frames))
        (1 ∷ [])
      ≡ stopped e ((1 ∷ []) ++ part))
encode_frame-stopped_example =
    encode_frame-stopped floats resp2 (array (more_frames null no_frames)) (1 ∷ [])
      (unfold writable in refl)

-- `dm.put m k v ex +10 nx`
abbrev lower_case : Frame
lower_case = array (
    more_frames (text (codes "dm.put")) (
      more_frames (text (codes "m")) (
        more_frames (text (codes "k")) (
          more_frames (text (codes "v")) (
            more_frames (text (codes "ex"))
              (more_frames (text (codes "+10")) (more_frames (text (codes "nx")) no_frames)))))))
  where
    text : Bytes → Frame
    text b = bulk (some b)

lower_case-parse :
    parse floats lower_case
    ≡ ok (
        dm_put
          (codes "m")
          (codes "k")
          (codes "v")
          (record no_put_options { ex = some 10; nx = true }))
unfolding parse parse_uint parse_unsigned is_utf8
lower_case-parse = refl

parse-IsSendable_example :
    IsSendable (
      dm_put
        (codes "m")
        (codes "k")
        (codes "v")
        (record no_put_options { ex = some 10; nx = true }))
parse-IsSendable_example =
    parse-IsSendable floats lower_case
      (dm_put (codes "m") (codes "k") (codes "v")
        (record no_put_options { ex = some 10; nx = true }))
      floats-ReadsBits lower_case-parse

parse-to_frame-parse_example : parse floats (to_frame floats put_command) ≡ ok put_command
parse-to_frame-parse_example =
    parse-to_frame-parse floats lower_case put_command floats-IsFloatText floats-ParsesSpecial
      floats-ReadsBits lower_case-parse

-- A frame that cannot be written leaves its beginning in the send buffer.
partial_array :
    encode_frame floats resp2 (array (more_frames null no_frames)) []
    ≡ stopped (resp3_required null_kind) (b'*' ∷ b'1' ∷ 13 ∷ 10 ∷ [])
unfolding encode_frame
partial_array = refl

-- The text of a big number is written with the line break that it has.
broken_big_number :
    encode_frame floats resp3 (big_number (b'1' ∷ 13 ∷ 10 ∷ [])) []
    ≡ written (b'(' ∷ b'1' ∷ 13 ∷ 10 ∷ 13 ∷ 10 ∷ [])
unfolding encode_frame
broken_big_number = refl
