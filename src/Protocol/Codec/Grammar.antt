-- ===== src/Protocol/Codec/Grammar.antt =====
-- The wire form of a frame, independent of the codec: its text, how deep it nests, and which
-- frames a codec may write and read.
use kamino.Prelude.{
  ℕ, suc, ◌^◌, ◌≤◌, ◌<◌, max, ◌≡◌, Bool, true, false, not, ◌&&◌, List, [], ◌∷◌, ◌++◌, none, some,
  if◌then◌else◌, length,
}
use kamino.Prelude.Int.{InI64}
use kamino.Protocol.Frame.{
  Frame, Frames, Pairs, simple_string, error, integer, bulk, null_array, array, map_frame,
  set_frame, push_frame, boolean, double, null, big_number, no_frames, more_frames, no_pairs,
  more_pairs,
}
use kamino.Protocol.Text.{print_nat, print_int, has_crlf, is_utf8}
use kamino.Protocol.Codec.{
  ProtocolVersion, RespCodec, FloatText, is_resp3, is_big_number, nan_bits, special_double,
}
use kamino.Protocol.Codec.Encode.{
  count_frames, count_pairs, double_text, crlf, line, header, is_nan, is_infinite, is_gated,
}

unfoldable mutual
  unfolding double_text count_frames count_pairs print_nat print_int

  pub print : FloatText → Frame → List ℕ
  print f64 (simple_string s) = line b'+' s
  print f64 (error s) = line b'-' s
  print f64 (integer i) = line b':' (print_int i)
  print f64 (bulk none) = line b'$' (b'-' ∷ b'1' ∷ [])
  print f64 (bulk (some b)) = header b'$' (length b) ++ (b ++ crlf)
  print f64 null_array = line b'*' (b'-' ∷ b'1' ∷ [])
  print f64 (array fs) = header b'*' (count_frames fs) ++ print_frames f64 fs
  print f64 (map_frame ps) = header b'%' (count_pairs ps) ++ print_pairs f64 ps
  print f64 (set_frame fs) = header b'~' (count_frames fs) ++ print_frames f64 fs
  print f64 (push_frame fs) = header b'>' (count_frames fs) ++ print_frames f64 fs
  print f64 (boolean b) = line b'#' ((if b then b't' else b'f') ∷ [])
  print f64 (double d) = line b',' (double_text f64 d)
  print f64 null = line b'_' []
  print f64 (big_number s) = line b'(' s

  pub print_frames : FloatText → Frames → List ℕ
  print_frames f64 no_frames = []
  print_frames f64 (more_frames f fs) = print f64 f ++ print_frames f64 fs

  pub print_pairs : FloatText → Pairs → List ℕ
  print_pairs f64 no_pairs = []
  print_pairs f64 (more_pairs k v ps) = print f64 k ++ (print f64 v ++ print_pairs f64 ps)

-- The levels that a frame takes, itself included.
unfoldable mutual
  pub height : Frame → ℕ
  height (array fs) = suc (height_frames fs)
  height (map_frame ps) = suc (height_pairs ps)
  height (set_frame fs) = suc (height_frames fs)
  height (push_frame fs) = suc (height_frames fs)
  height _ = 1

  pub height_frames : Frames → ℕ
  height_frames no_frames = 0
  height_frames (more_frames f fs) = max (height f) (height_frames fs)

  pub height_pairs : Pairs → ℕ
  height_pairs no_pairs = 0
  height_pairs (more_pairs k v ps) = max (max (height k) (height v)) (height_pairs ps)

-- No text line of the frame has a CR or LF, and nothing in it needs a later version.
unfoldable mutual
  unfolding is_gated has_crlf

  pub writable : ProtocolVersion → Frame → Bool
  writable version (simple_string s) = not (has_crlf s)
  writable version (error s) = not (has_crlf s)
  writable version (array fs) = writable_frames version fs
  writable version (map_frame ps) = is_resp3 version && writable_pairs version ps
  writable version (set_frame fs) = is_resp3 version && writable_frames version fs
  writable version (push_frame fs) = is_resp3 version && writable_frames version fs
  writable version (integer i) = true
  writable version (bulk b) = true
  writable version null_array = true
  writable version _ = is_resp3 version

  pub writable_frames : ProtocolVersion → Frames → Bool
  writable_frames version no_frames = true
  writable_frames version (more_frames f fs) = writable version f && writable_frames version fs

  pub writable_pairs : ProtocolVersion → Pairs → Bool
  writable_pairs version no_pairs = true
  writable_pairs version (more_pairs k v ps) =
      writable version k && (writable version v && writable_pairs version ps)

-- A text of the program: valid UTF-8, and on one line.
abbrev pub IsLine : List ℕ → Type 0
IsLine s = (is_utf8 s ≡ true) × (has_crlf s ≡ false)

abbrev pub Fits : ℕ → ℕ → Type 0
Fits limit n = (n ≤ limit) × (n < 2 ^ 63)

-- What a codec with the limits of `c` takes in: texts on one line, lengths within the limits, an
-- `i64`, the one NaN that a double is read as, and RESP3 frames after the upgrade.
abbrev mutual
  pub Receivable : RespCodec → Frame → Type 0
  Receivable c (simple_string s) = IsLine s
  Receivable c (error s) = IsLine s
  Receivable c (integer i) = InI64 i
  Receivable c (bulk none) = Unit
  Receivable c (bulk (some b)) = Fits c.max_bulk_size (length b)
  Receivable c null_array = Unit
  Receivable c (array fs) = Fits c.max_array_len (count_frames fs) × ReceivableFrames c fs
  Receivable c (map_frame ps) =
      (is_resp3 c.version ≡ true) × Fits c.max_array_len (count_pairs ps) × ReceivablePairs c ps
  Receivable c (set_frame fs) =
      (is_resp3 c.version ≡ true) × Fits c.max_array_len (count_frames fs) × ReceivableFrames c fs
  Receivable c (push_frame fs) =
      (is_resp3 c.version ≡ true) × Fits c.max_array_len (count_frames fs) × ReceivableFrames c fs
  Receivable c (boolean b) = is_resp3 c.version ≡ true
  Receivable c (double d) =
      (is_resp3 c.version ≡ true) × (d < 2 ^ 64) × (is_nan d ≡ true → d ≡ nan_bits)
  Receivable c null = is_resp3 c.version ≡ true
  Receivable c (big_number s) = (is_resp3 c.version ≡ true) × (is_big_number s ≡ true)

  pub ReceivableFrames : RespCodec → Frames → Type 0
  ReceivableFrames c no_frames = Unit
  ReceivableFrames c (more_frames f fs) = Receivable c f × ReceivableFrames c fs

  pub ReceivablePairs : RespCodec → Pairs → Type 0
  ReceivablePairs c no_pairs = Unit
  ReceivablePairs c (more_pairs k v ps) = Receivable c k × Receivable c v × ReceivablePairs c ps

-- What the codec relies on in the text of a finite double.
pub record IsFloatText (f64 : FloatText) : Type 0 where
  pub reads_back :
      (d : ℕ)
      → d < 2 ^ 64
      → is_nan d ≡ false
      → is_infinite d ≡ false
      → f64.parse (f64.print d) ≡ some d
  pub is_line : (d : ℕ) → IsLine (f64.print d)
  pub not_special :
      (d : ℕ) → is_nan d ≡ false → is_infinite d ≡ false → special_double (f64.print d) ≡ none
