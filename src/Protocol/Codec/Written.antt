-- ===== src/Protocol/Codec/Written.antt =====
-- The bytes that `encode_frame` leaves in the send buffer.
use kamino.Prelude.{
  ℕ, ◌≡◌, refl, sym, subst, fun_ext, Bool, true, false, not, ◌&&◌, List, [], ◌++◌, none, some,
  append_assoc, append-nil, if◌then◌else◌,
}
use kamino.Protocol.Frame.{
  Frame, Frames, Pairs, simple_string, error, integer, bulk, null_array, array, map_frame,
  set_frame, push_frame, boolean, double, null, big_number, no_frames, more_frames, no_pairs,
  more_pairs, requires_resp3,
}
use kamino.Protocol.Error.{
  Reason, simple_string_has_crlf, error_has_crlf, ProtocolError, invalid_encoding, resp3_required,
}
use kamino.Protocol.Text.{has_crlf}
use kamino.Protocol.Codec.{ProtocolVersion, resp2, resp3, FloatText, is_resp3}
use kamino.Protocol.Codec.Encode.{
  is_gated, gated, encode_frame, encode_frames, encode_pairs, Buffer, written, stopped, ◌>>=◌,
  write_text, line, frame_kind, count_frames, count_pairs, header,
}
use kamino.Protocol.Codec.Grammar.{
  print, print_frames, print_pairs, writable, writable_frames, writable_pairs,
}

-- A call that writes `text` if `may` holds, and otherwise stops with an error behind what the
-- buffer had.
abbrev Writes : Bool → List ℕ → (List ℕ → Buffer) → Type 0
Writes true text call = (dst : List ℕ) → call dst ≡ written (dst ++ text)
Writes false text call =
    (dst : List ℕ) → (e : ProtocolError) × (part : List ℕ) × (call dst ≡ stopped e (dst ++ part))

here : (e : ProtocolError) (dst : List ℕ) → stopped e dst ≡ stopped e (dst ++ [])
here e dst = rw append-nil

before-Writes :
    (may : Bool) (head text : List ℕ) (call : List ℕ → Buffer)
    → Writes may text call
    → Writes may (head ++ text) (λ dst. call (dst ++ head))
before-Writes true head text call w = λ dst. rw (w (dst ++ head), append_assoc)
before-Writes false head text call w =
    λ dst. let (e, part, stop) = w (dst ++ head) in (e, head ++ part, rw (stop, append_assoc))

then-Writes :
    (may may' : Bool) (text text' : List ℕ) (call call' : List ℕ → Buffer)
    → Writes may text call
    → Writes may' text' call'
    → Writes (may && may') (text ++ text') (λ dst. call dst >>= call')
then-Writes true true text text' call call' w w' = λ dst. rw (w dst, w' (dst ++ text), append_assoc)
then-Writes true false text text' call call' w w' = λ dst.
    let (e, part, stop) = w' (dst ++ text) in (e, text ++ part, rw (w dst, stop, append_assoc))
then-Writes false may' text text' call call' w w' =
    λ dst. let (e, part, stop) = w dst in (e, part, rw stop)

choice-Writes :
    (broken : Bool) (e : ProtocolError) (text : List ℕ)
    → Writes (not broken) text (λ dst. if broken then stopped e dst else written (dst ++ text))
choice-Writes true e text = λ dst. (e, [], here e dst)
choice-Writes false e text = λ dst. refl

text-Writes :
    (reason : Reason) (b : ℕ) (s : List ℕ)
    → Writes (not (has_crlf s)) (line b s) (write_text reason b s)
text-Writes reason b s = choice-Writes (has_crlf s) (invalid_encoding reason) (line b s)

-- Where the version has to be RESP3.
gated-Writes :
    (version : ProtocolVersion) (f : Frame) (may : Bool) (text : List ℕ) (call : List ℕ → Buffer)
    → requires_resp3 f ≡ true
    → Writes may text call
    → Writes (is_resp3 version && may) text (λ dst. gated version f dst (call dst))
unfolding gated is_gated
gated-Writes resp2 f may text call later w =
    λ dst. rw later (resp3_required (frame_kind f), [], here (resp3_required (frame_kind f)) dst)
gated-Writes resp3 f may text call later w = w

leaf-Writes :
    (version : ProtocolVersion) (f : Frame) (text : List ℕ)
    → requires_resp3 f ≡ true
    → Writes (is_resp3 version) text (λ dst. gated version f dst (written (dst ++ text)))
unfolding gated is_gated
leaf-Writes resp2 f text later =
    λ dst. rw later (resp3_required (frame_kind f), [], here (resp3_required (frame_kind f)) dst)
leaf-Writes resp3 f text later = λ dst. refl

open_gate :
    (version : ProtocolVersion) (f : Frame) (dst : List ℕ) (body : Buffer)
    → requires_resp3 f ≡ false
    → gated version f dst body ≡ body
unfolding gated is_gated
open_gate resp2 f dst body early = rw early
open_gate resp3 f dst body early = refl

early-Writes :
    (version : ProtocolVersion) (f : Frame) (may : Bool) (text : List ℕ) (call : List ℕ → Buffer)
    → requires_resp3 f ≡ false
    → Writes may text call
    → Writes may text (λ dst. gated version f dst (call dst))
early-Writes version f may text call early w =
    subst (Writes may text) (fun_ext λ dst. sym (open_gate version f dst (call dst) early)) w

mutual
  unfolding encode_frame print writable requires_resp3

  encode_frame-Writes :
      (f64 : FloatText) (version : ProtocolVersion) (f : Frame)
      → Writes (writable version f) (print f64 f) (encode_frame f64 version f)
  encode_frame-Writes f64 version (simple_string s) =
      early-Writes version (simple_string s) _ _ (write_text simple_string_has_crlf b'+' s) refl
        (text-Writes simple_string_has_crlf b'+' s)
  encode_frame-Writes f64 version (error s) =
      early-Writes version (error s) _ _ (write_text error_has_crlf b'-' s) refl
        (text-Writes error_has_crlf b'-' s)
  encode_frame-Writes f64 version (integer i) = λ dst. open_gate version (integer i) dst _ refl
  encode_frame-Writes f64 version (bulk none) = λ dst. open_gate version (bulk none) dst _ refl
  encode_frame-Writes f64 version (bulk (some b)) =
      λ dst. open_gate version (bulk (some b)) dst _ refl
  encode_frame-Writes f64 version null_array = λ dst. open_gate version null_array dst _ refl
  encode_frame-Writes f64 version (array fs) =
      early-Writes version (array fs) _ _ _ refl
        (before-Writes _ (header b'*' (count_frames fs)) _ _ (encode_frames-Writes f64 version fs))
  encode_frame-Writes f64 version (map_frame ps) =
      gated-Writes version (map_frame ps) _ _ _ refl
        (before-Writes _ (header b'%' (count_pairs ps)) _ _ (encode_pairs-Writes f64 version ps))
  encode_frame-Writes f64 version (set_frame fs) =
      gated-Writes version (set_frame fs) _ _ _ refl
        (before-Writes _ (header b'~' (count_frames fs)) _ _ (encode_frames-Writes f64 version fs))
  encode_frame-Writes f64 version (push_frame fs) =
      gated-Writes version (push_frame fs) _ _ _ refl
        (before-Writes _ (header b'>' (count_frames fs)) _ _ (encode_frames-Writes f64 version fs))
  encode_frame-Writes f64 version (boolean b) = leaf-Writes version (boolean b) _ refl
  encode_frame-Writes f64 version (double d) = leaf-Writes version (double d) _ refl
  encode_frame-Writes f64 version null = leaf-Writes version null _ refl
  encode_frame-Writes f64 version (big_number s) = leaf-Writes version (big_number s) _ refl

  encode_frames-Writes :
      (f64 : FloatText) (version : ProtocolVersion) (fs : Frames)
      → Writes (writable_frames version fs) (print_frames f64 fs) (encode_frames f64 version fs)
  encode_frames-Writes f64 version no_frames = λ dst. rw append-nil
  encode_frames-Writes f64 version (more_frames f fs) =
      then-Writes (writable version f) (writable_frames version fs) (print f64 f)
        (print_frames f64 fs) (encode_frame f64 version f) (encode_frames f64 version fs)
        (encode_frame-Writes f64 version f) (encode_frames-Writes f64 version fs)

  encode_pairs-Writes :
      (f64 : FloatText) (version : ProtocolVersion) (ps : Pairs)
      → Writes (writable_pairs version ps) (print_pairs f64 ps) (encode_pairs f64 version ps)
  encode_pairs-Writes f64 version no_pairs = λ dst. rw append-nil
  encode_pairs-Writes f64 version (more_pairs k v ps) =
      then-Writes (writable version k) (writable version v && writable_pairs version ps)
        (print f64 k) (print f64 v ++ print_pairs f64 ps) (encode_frame f64 version k)
        (λ dst. encode_frame f64 version v dst >>= encode_pairs f64 version ps)
        (encode_frame-Writes f64 version k)
        (then-Writes (writable version v) (writable_pairs version ps) (print f64 v)
          (print_pairs f64 ps) (encode_frame f64 version v) (encode_pairs f64 version ps)
          (encode_frame-Writes f64 version v) (encode_pairs-Writes f64 version ps))

-- The encoder writes the wire form of a frame behind what the send buffer holds, if no text line
-- has a line break and the version has its frames.
pub encode_frame-print :
    (f64 : FloatText) (version : ProtocolVersion) (f : Frame) (dst : List ℕ)
    → writable version f ≡ true
    → encode_frame f64 version f dst ≡ written (dst ++ print f64 f)
encode_frame-print f64 version f dst may = (rw may at (encode_frame-Writes f64 version f)) dst

-- A frame with a line break in a text line, or with a RESP3 part on a RESP2 connection, is not
-- written: the call stops with an error, and what the send buffer held stays in front of what the
-- call wrote before.
pub encode_frame-stopped :
    (f64 : FloatText) (version : ProtocolVersion) (f : Frame) (dst : List ℕ)
    → writable version f ≡ false
    → (e : ProtocolError) × (part : List ℕ) × (encode_frame f64 version f dst
        ≡ stopped e (dst ++ part))
encode_frame-stopped f64 version f dst may = (rw may at (encode_frame-Writes f64 version f)) dst
