-- ===== src/Protocol/Codec/Encode.antt =====
-- crates/kamino-protocol/src/codec.rs: writing a frame behind what the send buffer holds.
use kamino.Prelude.{
  ℕ, suc, ◌%◌, ◌^◌, Bool, false, List, [], ◌∷◌, ◌++◌, none, some, ltb, ◌==◌, if◌then◌else◌, length,
}
use kamino.Protocol.Frame.{
  Frame, Frames, Pairs, simple_string, error, integer, bulk, null_array, array, map_frame,
  set_frame, push_frame, boolean, double, null, big_number, no_frames, more_frames, no_pairs,
  more_pairs, requires_resp3,
}
use kamino.Protocol.Error.{
  Reason, simple_string_has_crlf, error_has_crlf, ProtocolError, invalid_encoding, resp3_required,
  FrameKind, simple_string_kind, error_kind, integer_kind, bulk_kind, array_kind, map_kind,
  set_kind, push_kind, boolean_kind, double_kind, null_kind, big_number_kind,
}
use kamino.Protocol.Text.{print_nat, print_int, has_crlf}
use kamino.Protocol.Codec.{ProtocolVersion, resp2, resp3, FloatText, infinity_bits}

unfoldable pub frame_kind : Frame → FrameKind
frame_kind (simple_string _) = simple_string_kind
frame_kind (error _) = error_kind
frame_kind (integer _) = integer_kind
frame_kind (bulk _) = bulk_kind
frame_kind null_array = array_kind
frame_kind (array _) = array_kind
frame_kind (map_frame _) = map_kind
frame_kind (set_frame _) = set_kind
frame_kind (push_frame _) = push_kind
frame_kind (boolean _) = boolean_kind
frame_kind (double _) = double_kind
frame_kind null = null_kind
frame_kind (big_number _) = big_number_kind

-- The send buffer after a call: the frame is written, or the call stopped at an error and what it
-- wrote before stays in the buffer.
pub data Buffer : Type 0 where
  written : List ℕ → Buffer
  stopped : ProtocolError → List ℕ → Buffer

infixl 5 ◌>>=◌
abbrev pub ◌>>=◌ : Buffer → (List ℕ → Buffer) → Buffer
written dst >>= f = f dst
stopped e dst >>= f = stopped e dst

abbrev pub crlf : List ℕ
crlf = 13 ∷ 10 ∷ []

-- A first byte, a text and CR LF.
abbrev pub line : ℕ → List ℕ → List ℕ
line b s = b ∷ s ++ crlf

-- A header line with a number.
abbrev pub header : ℕ → ℕ → List ℕ
header b n = line b (print_nat n)

-- Without the sign, a bit pattern is a NaN above the infinity.
abbrev pub is_nan : ℕ → Bool
is_nan d = ltb infinity_bits (d % 2 ^ 63)

abbrev pub is_infinite : ℕ → Bool
is_infinite d = d % 2 ^ 63 == infinity_bits

unfoldable pub double_text : FloatText → ℕ → List ℕ
double_text f64 d =
    if is_nan d
    then b'n' ∷ b'a' ∷ b'n' ∷ []
    else if is_infinite d
    then (if d == infinity_bits then b'i' ∷ b'n' ∷ b'f' ∷ [] else b'-' ∷ b'i' ∷ b'n' ∷ b'f' ∷ [])
    else f64.print d

unfoldable pub count_frames : Frames → ℕ
count_frames no_frames = 0
count_frames (more_frames f fs) = suc (count_frames fs)

unfoldable pub count_pairs : Pairs → ℕ
count_pairs no_pairs = 0
count_pairs (more_pairs k v ps) = suc (count_pairs ps)

-- The test at the start of `encode_frame`.
unfoldable pub is_gated : ProtocolVersion → Frame → Bool
unfolding requires_resp3
is_gated resp2 f = requires_resp3 f
is_gated resp3 f = false

abbrev pub write_text : Reason → ℕ → List ℕ → List ℕ → Buffer
write_text reason b s dst =
    if has_crlf s then stopped (invalid_encoding reason) dst else written (dst ++ line b s)

-- The test, and the frame's own part after it.
unfoldable pub gated : ProtocolVersion → Frame → List ℕ → Buffer → Buffer
unfolding is_gated frame_kind
gated version f dst body =
    if is_gated version f then stopped (resp3_required (frame_kind f)) dst else body

unfoldable mutual
  unfolding gated double_text count_frames count_pairs has_crlf print_nat print_int

  pub encode_frame : FloatText → ProtocolVersion → Frame → List ℕ → Buffer
  encode_frame f64 version (simple_string s) dst =
      gated version (simple_string s) dst (write_text simple_string_has_crlf b'+' s dst)
  encode_frame f64 version (error s) dst =
      gated version (error s) dst (write_text error_has_crlf b'-' s dst)
  encode_frame f64 version (integer i) dst =
      gated version (integer i) dst (written (dst ++ line b':' (print_int i)))
  encode_frame f64 version (bulk none) dst =
      gated version (bulk none) dst (written (dst ++ line b'$' (b'-' ∷ b'1' ∷ [])))
  encode_frame f64 version (bulk (some b)) dst =
      gated version (bulk (some b)) dst (written (dst ++ (header b'$' (length b) ++ (b ++ crlf))))
  encode_frame f64 version null_array dst =
      gated version null_array dst (written (dst ++ line b'*' (b'-' ∷ b'1' ∷ [])))
  encode_frame f64 version (array fs) dst =
      gated version (array fs) dst
        (encode_frames f64 version fs (dst ++ header b'*' (count_frames fs)))
  encode_frame f64 version (map_frame ps) dst =
      gated version (map_frame ps) dst
        (encode_pairs f64 version ps (dst ++ header b'%' (count_pairs ps)))
  encode_frame f64 version (set_frame fs) dst =
      gated version (set_frame fs) dst
        (encode_frames f64 version fs (dst ++ header b'~' (count_frames fs)))
  encode_frame f64 version (push_frame fs) dst =
      gated version (push_frame fs) dst
        (encode_frames f64 version fs (dst ++ header b'>' (count_frames fs)))
  encode_frame f64 version (boolean b) dst =
      gated version (boolean b) dst (written (dst ++ line b'#' ((if b then b't' else b'f') ∷ [])))
  encode_frame f64 version (double d) dst =
      gated version (double d) dst (written (dst ++ line b',' (double_text f64 d)))
  encode_frame f64 version null dst = gated version null dst (written (dst ++ line b'_' []))
  encode_frame f64 version (big_number s) dst =
      gated version (big_number s) dst (written (dst ++ line b'(' s))

  pub encode_frames : FloatText → ProtocolVersion → Frames → List ℕ → Buffer
  encode_frames f64 version no_frames dst = written dst
  encode_frames f64 version (more_frames f fs) dst =
      encode_frame f64 version f dst >>= λ dst'. encode_frames f64 version fs dst'

  pub encode_pairs : FloatText → ProtocolVersion → Pairs → List ℕ → Buffer
  encode_pairs f64 version no_pairs dst = written dst
  encode_pairs f64 version (more_pairs k v ps) dst = encode_frame f64 version k dst >>= λ dst'.
      encode_frame f64 version v dst' >>= λ dst''. encode_pairs f64 version ps dst''
