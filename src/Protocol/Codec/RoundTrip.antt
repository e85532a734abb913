-- ===== src/Protocol/Codec/RoundTrip.antt =====
-- A frame that was written reads back, whatever bytes follow it.
use kamino.Prelude.{
  ℕ, zero, suc, ◌+◌, ◌^◌, ◌≤◌, ◌<◌, ◌≡◌, refl, ◌∙◌, Bool, true, false, List, ◌∷◌, ◌++◌, none, some,
  append_assoc, arith, ltb, if◌then◌else◌, length, drop, length-append, drop-append_eq,
  drop-append_add,
}
use kamino.Prelude.Int.{ℤ, pos, negsuc}
use kamino.Protocol.Frame.{
  Frame, Frames, Pairs, simple_string, error, integer, bulk, null_array, array, map_frame,
  set_frame, push_frame, boolean, double, null, big_number, no_frames, more_frames, no_pairs,
  more_pairs,
}
use kamino.Protocol.Error.{
  Result, ok, Counted, map_length, set_length, push_length, array_length, ProtocolError,
}
use kamino.Protocol.Text.{print_nat, print_int, has_crlf}
use kamino.Protocol.Text.Digits.{print_int-has_crlf}
use kamino.Protocol.Codec.{
  Reader, FloatText, RespCodec, after, read_line, on_line, parse_frames, parse_pairs, parse_counted,
  parse_array_body, parse_bulk_body, parse_array, parse_bulk, parse_frame, with_header,
  is_big_number, parse_set, parse_push, parse_map, parse_boolean, parse_null, parse_double,
  parse_big_number,
}
use kamino.Protocol.Codec.Encode.{count_frames, count_pairs, double_text, crlf}
use kamino.Protocol.Codec.Grammar.{
  print, print_frames, print_pairs, height, Receivable, ReceivableFrames, ReceivablePairs, Fits,
  height_frames, height_pairs, IsFloatText,
}
use kamino.Protocol.Codec.Lines.{
  on_line-crlf, with_header-nat, with_header-int, parse_i64-print_int, parse_payload-crlf,
}
use kamino.Protocol.Codec.Doubles.{
  double_text-IsLine, parse_double-double_text, is_big_number-IsLine,
}

-- What a reader makes of a text, whatever follows it.
abbrev Reads {ℓ} : {A : Type ℓ} → Reader A → List ℕ → A → Type ℓ
Reads p text a = (rest : List ℕ) → p (text ++ rest) ≡ ok (a, length text)

parse_frames-more :
    (item : Reader Frame) (f : Frame) (fs : Frames) (text texts : List ℕ)
    → Reads item text f
    → Reads (parse_frames item (count_frames fs)) texts fs
    → Reads (parse_frames item (suc (count_frames fs))) (text ++ texts) (more_frames f fs)
unfolding parse_frames
parse_frames-more item f fs text texts first later rest = rw (
  append_assoc,
  first (texts ++ rest),
  drop-append_eq (length text) text (texts ++ rest) refl,
  later rest,
  length-append text texts,
)

parse_pairs-more :
    (item : Reader Frame) (k v : Frame) (ps : Pairs) (text text' texts : List ℕ)
    → Reads item text k
    → Reads item text' v
    → Reads (parse_pairs item (count_pairs ps)) texts ps
    → Reads (parse_pairs item (suc (count_pairs ps))) (text ++ (text' ++ texts)) (more_pairs k v ps)
unfolding parse_pairs
parse_pairs-more item k v ps text text' texts first second later rest =
    let split : (text ++ (text' ++ texts)) ++ rest ≡ text ++ (text' ++ (texts ++ rest)) =
      simp append_assoc in
    let tail = text' ++ (texts ++ rest) in
    let behind : drop (length text) (text ++ tail) ≡ tail =
      drop-append_eq (length text) text tail refl in
    let after_both : drop (length text + length text') (text ++ tail) ≡ texts ++ rest =
      drop-append_add (length text) (length text') text tail refl
      ∙ drop-append_eq (length text') text' (texts ++ rest) refl in
    let size : length text + length text' + length texts ≡ length (text ++ (text' ++ texts)) =
      omega (arith, length-append text (text' ++ texts), length-append text' texts) in
    rw (split, first tail, behind, second (texts ++ rest), after_both, later rest, size)

-- A header line and what its body reads behind it.
header-Reads {ℓ} :
    {A : Type ℓ} (body : ℤ → Reader A) (n : ℕ) (texts rest : List ℕ) (a : A)
    → n < 2 ^ 63
    → body (pos n) (texts ++ rest) ≡ ok (a, length texts)
    → after 1 (with_header body (((print_nat n ++ crlf) ++ texts) ++ rest))
      ≡ ok (a, suc (length ((print_nat n ++ crlf) ++ texts)))
header-Reads body n texts rest a fits reads =
    let split : ((print_nat n ++ crlf) ++ texts) ++ rest
        ≡ print_nat n ++ 13 ∷ 10 ∷ (texts ++ rest) =
      simp append_assoc in
    let size : 1 + (length (print_nat n) + 2 + length texts)
        ≡ suc (length ((print_nat n ++ crlf) ++ texts)) =
      omega (arith, length-append (print_nat n ++ crlf) texts, length-append (print_nat n) crlf) in
    rw (split, with_header-nat body n (texts ++ rest) fits, reads, size)

-- The elements of a collection within the limits.
parse_counted-Reads {ℓ} :
    {A : Type ℓ} (kind : Counted) (elements : ℕ → Reader A) (make : A → Frame) (limit n : ℕ)
    (texts rest : List ℕ) (a : A)
    → n ≤ limit
    → Reads (elements n) texts a
    → parse_counted kind elements make limit (pos n) (texts ++ rest) ≡ ok (make a, length texts)
unfolding parse_counted
parse_counted-Reads kind elements make limit n texts rest a fits reads =
    let within : ltb limit n ≡ false = ground arith in rw (within, reads rest)

elements-Reads {ℓ} :
    {A : Type ℓ} (kind : Counted) (elements : ℕ → Reader A) (make : A → Frame) (limit n : ℕ)
    (texts rest : List ℕ) (a : A)
    → Fits limit n
    → Reads (elements n) texts a
    → after 1 (
        with_header
          (parse_counted kind elements make limit)
          (((print_nat n ++ crlf) ++ texts) ++ rest))
      ≡ ok (make a, suc (length ((print_nat n ++ crlf) ++ texts)))
elements-Reads kind elements make limit n texts rest a fits reads =
    header-Reads (parse_counted kind elements make limit) n texts rest (make a) fits.1
      (parse_counted-Reads kind elements make limit n texts rest a fits.0 reads)

-- A frame on one line.
on_line-line :
    (f : List ℕ → Result ProtocolError Frame) (s rest : List ℕ) (a : Frame)
    → has_crlf s ≡ false
    → f s ≡ ok a
    → after 1 (on_line f ((s ++ crlf) ++ rest)) ≡ ok (a, suc (length (s ++ crlf)))
on_line-line f s rest a h e =
    let split : (s ++ crlf) ++ rest ≡ s ++ 13 ∷ 10 ∷ rest = simp append_assoc in
    let size : 1 + (length s + 2) ≡ suc (length (s ++ crlf)) =
      omega (arith, length-append s crlf) in
    rw (split, on_line-crlf f s rest a h e, size)

height-pos : (f : Frame) → 0 < height f
unfolding height
height-pos (array fs) = omega arith
height-pos (map_frame ps) = omega arith
height-pos (set_frame fs) = omega arith
height-pos (push_frame fs) = omega arith
height-pos _ = omega arith

parse_bulk_body-payload :
    (limit : ℕ) (b rest : List ℕ)
    → Fits limit (length b)
    → after 1 (parse_bulk limit (((print_nat (length b) ++ crlf) ++ (b ++ crlf)) ++ rest))
      ≡ ok (bulk (some b), suc (length ((print_nat (length b) ++ crlf) ++ (b ++ crlf))))
unfolding parse_bulk parse_bulk_body
parse_bulk_body-payload limit b rest fits =
    let within : ltb limit (length b) ≡ false = ground arith in
    let split : (b ++ crlf) ++ rest ≡ b ++ 13 ∷ 10 ∷ rest = simp append_assoc in
    let size : length b + 2 ≡ length (b ++ crlf) = omega (arith, length-append b crlf) in
    header-Reads (parse_bulk_body limit) (length b) (b ++ crlf) rest (bulk (some b)) fits.1
      (rw (within, split, parse_payload-crlf b rest, size))

null_header {ℓ} :
    {A : Type ℓ} (body : ℤ → Reader A) (rest : List ℕ)
    → with_header body (b'-' ∷ b'1' ∷ 13 ∷ 10 ∷ rest) ≡ after 4 (body (negsuc 0) rest)
unfolding print_int print_nat
null_header body rest = with_header-int body (negsuc 0) rest (omega arith)

null_bulk-Reads :
    (limit : ℕ) (rest : List ℕ)
    → after 1 (parse_bulk limit (b'-' ∷ b'1' ∷ 13 ∷ 10 ∷ rest)) ≡ ok (bulk none, 5)
unfolding parse_bulk parse_bulk_body
null_bulk-Reads limit rest = rw (null_header (parse_bulk_body limit) rest)

null_array-Reads :
    (item : Reader Frame) (limit : ℕ) (rest : List ℕ)
    → after 1 (parse_array item limit (b'-' ∷ b'1' ∷ 13 ∷ 10 ∷ rest)) ≡ ok (null_array, 5)
unfolding parse_array parse_array_body
null_array-Reads item limit rest = rw (null_header (parse_array_body item limit) rest)

array-Reads :
    (item : Reader Frame) (limit : ℕ) (fs : Frames) (texts rest : List ℕ)
    → Fits limit (count_frames fs)
    → Reads (parse_frames item (count_frames fs)) texts fs
    → after 1 (parse_array item limit (((print_nat (count_frames fs) ++ crlf) ++ texts) ++ rest))
      ≡ ok (array fs, suc (length ((print_nat (count_frames fs) ++ crlf) ++ texts)))
unfolding parse_array parse_array_body
array-Reads item limit fs texts rest fits reads =
    header-Reads (parse_array_body item limit) (count_frames fs) texts rest (array fs) fits.1 (
      parse_counted-Reads array_length (parse_frames item) array limit (count_frames fs) texts rest
        fs fits.0 reads)

boolean-Reads :
    (b : Bool) (rest : List ℕ)
    → after 1 (on_line parse_boolean ((if b then b't' else b'f') ∷ 13 ∷ 10 ∷ rest))
      ≡ ok (boolean b, 4)
unfolding parse_boolean read_line
boolean-Reads true rest = refl
boolean-Reads false rest = refl

null-Reads : (rest : List ℕ) → after 1 (on_line parse_null (13 ∷ 10 ∷ rest)) ≡ ok (null, 3)
unfolding parse_null read_line
null-Reads rest = refl

big_number-Reads :
    (s rest : List ℕ)
    → is_big_number s ≡ true
    → after 1 (on_line parse_big_number ((s ++ crlf) ++ rest))
      ≡ ok (big_number s, suc (length (s ++ crlf)))
unfolding parse_big_number
big_number-Reads s rest h =
    let shape = is_big_number-IsLine s h in
    on_line-line parse_big_number s rest (big_number s) shape.1 (rw (shape.0, h))

mutual
  unfolding parse_frame parse_map parse_set parse_push parse_frames parse_pairs count_frames
      count_pairs print height

  parse_frame-Reads :
      (f64 : FloatText) (c : RespCodec) (laws : IsFloatText f64) (levels : ℕ) (f : Frame)
      → height f ≤ levels
      → Receivable c f
      → Reads (parse_frame f64 c levels) (print f64 f) f
  parse_frame-Reads f64 c laws zero f h r rest = absurd (omega (arith, height-pos f))
  parse_frame-Reads f64 c laws (suc l) (simple_string s) h r rest =
      on_line-line _ s rest (simple_string s) r.1 (rw r.0)
  parse_frame-Reads f64 c laws (suc l) (error s) h r rest =
      on_line-line _ s rest (error s) r.1 (rw r.0)
  parse_frame-Reads f64 c laws (suc l) (integer i) h r rest =
      on_line-line _ (print_int i) rest (integer i) (print_int-has_crlf i)
        (rw (parse_i64-print_int i r))
  parse_frame-Reads f64 c laws (suc l) (bulk none) h r rest = null_bulk-Reads c.max_bulk_size rest
  parse_frame-Reads f64 c laws (suc l) (bulk (some b)) h r rest =
      parse_bulk_body-payload c.max_bulk_size b rest r
  parse_frame-Reads f64 c laws (suc l) null_array h r rest =
      null_array-Reads (parse_frame f64 c l) c.max_array_len rest
  parse_frame-Reads f64 c laws (suc l) (array fs) h r rest =
      array-Reads (parse_frame f64 c l) c.max_array_len fs (print_frames f64 fs) rest r.0
        (parse_frames-Reads f64 c laws l fs (omega arith) r.1)
  parse_frame-Reads f64 c laws (suc l) (map_frame ps) h r rest = rw r.0 (
      elements-Reads map_length (parse_pairs (parse_frame f64 c l)) map_frame c.max_array_len
        (count_pairs ps) (print_pairs f64 ps) rest ps r.1
        (parse_pairs-Reads f64 c laws l ps (omega arith) r.2))
  parse_frame-Reads f64 c laws (suc l) (set_frame fs) h r rest = rw r.0 (
      elements-Reads set_length (parse_frames (parse_frame f64 c l)) set_frame c.max_array_len
        (count_frames fs) (print_frames f64 fs) rest fs r.1
        (parse_frames-Reads f64 c laws l fs (omega arith) r.2))
  parse_frame-Reads f64 c laws (suc l) (push_frame fs) h r rest = rw r.0 (
      elements-Reads push_length (parse_frames (parse_frame f64 c l)) push_frame c.max_array_len
        (count_frames fs) (print_frames f64 fs) rest fs r.1
        (parse_frames-Reads f64 c laws l fs (omega arith) r.2))
  parse_frame-Reads f64 c laws (suc l) (boolean b) h r rest = rw r (boolean-Reads b rest)
  parse_frame-Reads f64 c laws (suc l) (double d) h r rest = rw r.0 (
      on_line-line (parse_double f64) (double_text f64 d) rest (double d)
        (double_text-IsLine f64 d laws).1 (parse_double-double_text f64 d laws r.1 r.2))
  parse_frame-Reads f64 c laws (suc l) null h r rest = rw r (null-Reads rest)
  parse_frame-Reads f64 c laws (suc l) (big_number s) h r rest =
      rw r.0 (big_number-Reads s rest r.1)

  parse_frames-Reads :
      (f64 : FloatText) (c : RespCodec) (laws : IsFloatText f64) (levels : ℕ) (fs : Frames)
      → height_frames fs ≤ levels
      → ReceivableFrames c fs
      → Reads (parse_frames (parse_frame f64 c levels) (count_frames fs)) (print_frames f64 fs) fs
  parse_frames-Reads f64 c laws l no_frames h r rest = refl
  parse_frames-Reads f64 c laws l (more_frames f fs) h r rest =
      parse_frames-more (parse_frame f64 c l) f fs (print f64 f) (print_frames f64 fs)
        (parse_frame-Reads f64 c laws l f (omega arith) r.0)
        (parse_frames-Reads f64 c laws l fs (omega arith) r.1) rest

  parse_pairs-Reads :
      (f64 : FloatText) (c : RespCodec) (laws : IsFloatText f64) (levels : ℕ) (ps : Pairs)
      → height_pairs ps ≤ levels
      → ReceivablePairs c ps
      → Reads (parse_pairs (parse_frame f64 c levels) (count_pairs ps)) (print_pairs f64 ps) ps
  parse_pairs-Reads f64 c laws l no_pairs h r rest = refl
  parse_pairs-Reads f64 c laws l (more_pairs k v ps) h r rest =
      parse_pairs-more (parse_frame f64 c l) k v ps (print f64 k) (print f64 v) (print_pairs f64 ps)
        (parse_frame-Reads f64 c laws l k (omega arith) r.0)
        (parse_frame-Reads f64 c laws l v (omega arith) r.1)
        (parse_pairs-Reads f64 c laws l ps (omega arith) r.2) rest

-- A frame that the codec may receive, in its wire form and with any bytes behind it, reads as that
-- frame and takes the bytes of the wire form, where the levels suffice.
pub parse_frame-print :
    (f64 : FloatText) (c : RespCodec) (levels : ℕ) (f : Frame) (rest : List ℕ)
    → IsFloatText f64
    → height f ≤ levels
    → Receivable c f
    → parse_frame f64 c levels (print f64 f ++ rest) ≡ ok (f, length (print f64 f))
parse_frame-print f64 c levels f rest laws h r = parse_frame-Reads f64 c laws levels f h r rest
