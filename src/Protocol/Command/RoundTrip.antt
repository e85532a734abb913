-- ===== src/Protocol/Command/RoundTrip.antt =====
-- A command that was sent is the command that the parser answers.
use kamino.Prelude.{◌^◌, ◌<◌, ◌≡◌, refl, List, [], ◌∷◌, none, some, arith}
use kamino.Protocol.Error.{ok}
use kamino.Protocol.Codec.{FloatText}
use kamino.Protocol.Codec.Grammar.{IsFloatText}
use kamino.Protocol.Command.{
  Bytes, Command, PartitionType, primary, backup, as_u8, from_u8, ping, auth, hello, dm_put, dm_del,
  dm_expire, dm_pexpire, dm_incr, dm_decr, dm_incr_by_float, dm_scan, internal_node_length_of_part,
  internal_node_move_fragment, subscribe, psubscribe, pubsub_channels,
}
use kamino.Protocol.Command.Clauses.{
  parse_put_options-frames, check_put_options-ok, parse_scan_options-frames,
  parse_hello_args-frames,
}
use kamino.Protocol.Command.Values.{
  parse_uint-print_nat, parse_int-print_int, parse_float-double_text,
}
use kamino.Protocol.Command.Parse.{arguments_of, parse_arguments, parse}
use kamino.Protocol.Command.Print.{bulks, parts, to_frame, IsSendable, ParsesSpecial}

arguments_of-bulks : (bs : List Bytes) → arguments_of (bulks bs) ≡ ok bs
unfolding arguments_of bulks
arguments_of-bulks [] = refl
arguments_of-bulks (b ∷ bs) = rw (arguments_of-bulks bs)

as_u8-lt : (kind : PartitionType) → as_u8 kind < 2 ^ 8
unfolding as_u8
as_u8-lt primary = omega arith
as_u8-lt backup = omega arith

from_u8-as_u8 : (kind : PartitionType) → from_u8 (as_u8 kind) ≡ some kind
unfolding from_u8 as_u8
from_u8-as_u8 primary = refl
from_u8-as_u8 backup = refl

parse_arguments-parts :
    (f64 : FloatText) (c : Command)
    → IsFloatText f64
    → ParsesSpecial f64
    → IsSendable c
    → parse_arguments f64 (parts f64 c) ≡ ok c
unfolding parse_arguments parts
parse_arguments-parts f64 (ping none) laws specials s = refl
parse_arguments-parts f64 (ping (some m)) laws specials s = refl
parse_arguments-parts f64 (auth none p) laws specials s = refl
parse_arguments-parts f64 (auth (some u) p) laws specials s = refl
parse_arguments-parts f64 (hello h) laws specials s = rw (parse_hello_args-frames h s.0 s.1)
parse_arguments-parts f64 (dm_put dmap key value o) laws specials s =
    rw (parse_put_options-frames o s.0 s.1 s.2 s.3 s.4, check_put_options-ok o s.5 s.6)
parse_arguments-parts f64 (dm_del dmap []) laws specials s = absurd (omega arith)
parse_arguments-parts f64 (dm_del dmap (k ∷ ks)) laws specials s = refl
parse_arguments-parts f64 (dm_expire dmap key n) laws specials s =
    rw (parse_uint-print_nat 64 n "DM.EXPIRE" "seconds" s)
parse_arguments-parts f64 (dm_pexpire dmap key n) laws specials s =
    rw (parse_uint-print_nat 64 n "DM.PEXPIRE" "milliseconds" s)
parse_arguments-parts f64 (dm_incr dmap key d) laws specials s =
    rw (parse_int-print_int d "DM.INCR" "delta" s)
parse_arguments-parts f64 (dm_decr dmap key d) laws specials s =
    rw (parse_int-print_int d "DM.DECR" "delta" s)
parse_arguments-parts f64 (dm_incr_by_float dmap key d) laws specials s =
    rw (parse_float-double_text f64 d "DM.INCRBYFLOAT" "delta" laws specials s.0 s.1)
parse_arguments-parts f64 (dm_scan n dmap cursor o) laws specials s = rw (
  parse_uint-print_nat 32 n "DM.SCAN" "partID" s.0,
  parse_uint-print_nat 64 cursor "DM.SCAN" "cursor" s.1,
  parse_scan_options-frames o s.2,
)
parse_arguments-parts f64 (internal_node_length_of_part n) laws specials s =
    rw (parse_uint-print_nat 32 n "INTERNAL.NODE.LENGTHOFPART" "partition_id" s)
parse_arguments-parts f64 (internal_node_move_fragment n kind dmap payload) laws specials s = rw (
  parse_uint-print_nat 32 n "INTERNAL.NODE.MOVEFRAGMENT" "partition_id" s,
  parse_uint-print_nat 8 (as_u8 kind) "INTERNAL.NODE.MOVEFRAGMENT" "partition_type" (as_u8-lt kind),
  from_u8-as_u8 kind,
)
parse_arguments-parts f64 (subscribe []) laws specials s = absurd (omega arith)
parse_arguments-parts f64 (subscribe (k ∷ ks)) laws specials s = refl
parse_arguments-parts f64 (psubscribe []) laws specials s = absurd (omega arith)
parse_arguments-parts f64 (psubscribe (k ∷ ks)) laws specials s = refl
parse_arguments-parts f64 (pubsub_channels none) laws specials s = refl
parse_arguments-parts f64 (pubsub_channels (some p)) laws specials s = refl
parse_arguments-parts f64 _ laws specials s = refl

-- The parser answers the command that `to_frame` sent.
pub parse-to_frame :
    (f64 : FloatText) (c : Command)
    → IsFloatText f64
    → ParsesSpecial f64
    → IsSendable c
    → parse f64 (to_frame f64 c) ≡ ok c
unfolding parse to_frame
parse-to_frame f64 c laws specials s =
    rw (arguments_of-bulks (parts f64 c)) (parse_arguments-parts f64 c laws specials s)
