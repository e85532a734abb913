-- ===== src/Protocol/Codec/Stream.antt =====
-- `decode` on a receive buffer that fills in steps and holds several frames.
use kamino.Prelude.{
  ℕ, zero, suc, ◌≤◌, ◌<◌, ◌≡◌, ◌≢◌, refl, ◌∙◌, ap, inl, inr, true, false, List, [], ◌∷◌, ◌++◌, none,
  some, arith, length, drop, Bool-cases, Option-cases, length-drop, drop-append_eq, drop-append_le,
}
use kamino.Protocol.Frame.{
  Frame, Frames, Pairs, no_frames, more_frames, no_pairs, more_pairs, simple_string, error, integer,
  bulk, null_array, array, map_frame, set_frame, push_frame, boolean, double, null, big_number,
}
use kamino.Protocol.Error.{Result, ok, err, ProtocolError, incomplete}
use kamino.Protocol.Codec.{
  FloatText, RespCodec, ProtocolVersion, max_depth, after, parse_frame, prefix_of, is_known_prefix,
  match_inline_ping, ends_line, ping_frame, is_ping, Decoded, frame, wait, refused, advance,
  decode_framed, decode,
}
use kamino.Protocol.Codec.Encode.{encode_frame, written}
use kamino.Protocol.Codec.Grammar.{
  print, height, Receivable, ReceivableFrames, ReceivablePairs, writable, writable_frames,
  writable_pairs, IsFloatText,
}
use kamino.Protocol.Codec.Written.{encode_frame-print}
use kamino.Protocol.Codec.RoundTrip.{parse_frame-print}
use kamino.Protocol.Codec.Steady.{Steady, parse_frame-IsSteady}

-- The codec writes every frame that it may receive.
mutual
  unfolding writable

  Receivable-writable : (c : RespCodec) (f : Frame) → Receivable c f → writable c.version f ≡ true
  Receivable-writable c (simple_string s) r = rw r.1
  Receivable-writable c (error s) r = rw r.1
  Receivable-writable c (array fs) r = ReceivableFrames-writable c fs r.1
  Receivable-writable c (map_frame ps) r = rw r.0 (ReceivablePairs-writable c ps r.2)
  Receivable-writable c (set_frame fs) r = rw r.0 (ReceivableFrames-writable c fs r.2)
  Receivable-writable c (push_frame fs) r = rw r.0 (ReceivableFrames-writable c fs r.2)
  Receivable-writable c (integer i) r = refl
  Receivable-writable c (bulk b) r = refl
  Receivable-writable c null_array r = refl
  Receivable-writable c (boolean b) r = r
  Receivable-writable c (double d) r = r.0
  Receivable-writable c null r = r
  Receivable-writable c (big_number s) r = r.0

  ReceivableFrames-writable :
      (c : RespCodec) (fs : Frames) → ReceivableFrames c fs → writable_frames c.version fs ≡ true
  ReceivableFrames-writable c no_frames r = refl
  ReceivableFrames-writable c (more_frames f fs) r =
      rw (Receivable-writable c f r.0) (ReceivableFrames-writable c fs r.1)

  ReceivablePairs-writable :
      (c : RespCodec) (ps : Pairs) → ReceivablePairs c ps → writable_pairs c.version ps ≡ true
  ReceivablePairs-writable c no_pairs r = refl
  ReceivablePairs-writable c (more_pairs k v ps) r =
      rw (Receivable-writable c k r.0, Receivable-writable c v r.1)
        (ReceivablePairs-writable c ps r.2)

-- The first byte of a written frame is one that the codec knows.
print-known :
    (f64 : FloatText) (c : RespCodec) (f : Frame)
    → Receivable c f
    → (b : ℕ) × (tail : List ℕ) × (print f64 f ≡ b ∷ tail)
      × (is_known_prefix (prefix_of b) c.version ≡ true)
unfolding print is_known_prefix prefix_of
print-known f64 c (simple_string s) r = (b'+', _, refl, refl)
print-known f64 c (error s) r = (b'-', _, refl, refl)
print-known f64 c (array fs) r = (b'*', _, refl, refl)
print-known f64 c (map_frame ps) r = (b'%', _, refl, r.0)
print-known f64 c (set_frame fs) r = (b'~', _, refl, r.0)
print-known f64 c (push_frame fs) r = (b'>', _, refl, r.0)
print-known f64 c (integer i) r = (b':', _, refl, refl)
print-known f64 c (bulk none) r = (b'$', _, refl, refl)
print-known f64 c (bulk (some b)) r = (b'$', _, refl, refl)
print-known f64 c null_array r = (b'*', _, refl, refl)
print-known f64 c (boolean b) r = (b'#', _, refl, r)
print-known f64 c (double d) r = (b',', _, refl, r.0)
print-known f64 c null r = (b'_', _, refl, r)
print-known f64 c (big_number s) r = (b'(', _, refl, r.0)

known-not_ping :
    (version : ProtocolVersion) (a b c d : ℕ)
    → is_known_prefix (prefix_of a) version ≡ true
    → is_ping a b c d ≡ false
unfolding is_known_prefix prefix_of is_ping
known-not_ping version a b c d known = ground arith

known-framed :
    (version : ProtocolVersion) (b : ℕ) (rest : List ℕ)
    → is_known_prefix (prefix_of b) version ≡ true
    → match_inline_ping (b ∷ rest) ≡ none
unfolding match_inline_ping
known-framed version b [] known = refl
known-framed version b (x ∷ []) known = refl
known-framed version b (x ∷ y ∷ []) known = refl
known-framed version b (x ∷ y ∷ z ∷ rest) known = rw (known-not_ping version b x y z known)

decode-known :
    (f64 : FloatText) (c : RespCodec) (b : ℕ) (rest : List ℕ)
    → is_known_prefix (prefix_of b) c.version ≡ true
    → decode f64 c (b ∷ rest) ≡ advance (b ∷ rest) (parse_frame f64 c (suc max_depth) (b ∷ rest))
unfolding decode decode_framed
decode-known f64 c b rest known = rw (known-framed c.version b rest known, known)

decode-print :
    (f64 : FloatText) (c : RespCodec) (f : Frame) (rest : List ℕ)
    → IsFloatText f64
    → height f ≤ suc max_depth
    → Receivable c f
    → decode f64 c (print f64 f ++ rest) ≡ frame f rest
decode-print f64 c f rest laws h r =
    let (b, tail, start, known) = print-known f64 c f r in
    let framed : decode f64 c (print f64 f ++ rest)
        ≡ advance (print f64 f ++ rest) (parse_frame f64 c (suc max_depth) (print f64 f ++ rest)) =
      rw start (decode-known f64 c b (tail ++ rest) known) in
    framed
    ∙ rw (
      parse_frame-print f64 c (suc max_depth) f rest laws h r,
      drop-append_eq (length (print f64 f)) (print f64 f) rest refl,
    )

-- For a frame within the limits of the codec and of the nesting, `encode_frame` appends bytes to
-- the send buffer which `decode` reads off the front of a receive buffer as that frame, leaving
-- the bytes behind them, where the text codec of doubles reads back what it writes.
pub decode-encode_frame :
    (f64 : FloatText) (c : RespCodec) (f : Frame) (dst rest : List ℕ)
    → IsFloatText f64
    → height f ≤ suc max_depth
    → Receivable c f
    → (out : List ℕ) × (encode_frame f64 c.version f dst ≡ written (dst ++ out))
      × (decode f64 c (out ++ rest) ≡ frame f rest)
decode-encode_frame f64 c f dst rest laws h r = (
  print f64 f,
  encode_frame-print f64 c.version f dst (Receivable-writable c f r),
  decode-print f64 c f rest laws h r,
)

abbrev pub extend : List ℕ → Decoded → Decoded
extend more (frame f rest) = frame f (rest ++ more)
extend more wait = wait
extend more (refused e) = refused e

advance-append :
    (buf more : List ℕ) (r r' : Result ProtocolError (Frame × ℕ))
    → Steady r r' (length buf)
    → advance buf r ≢ wait
    → advance (buf ++ more) r' ≡ extend more (advance buf r)
advance-append buf more (ok (f, n)) r' (inl cut) done = cc
advance-append buf more (ok (f, n)) r' (inr (same, w)) done = rw (same, drop-append_le n buf more w)
advance-append buf more (err incomplete) r' steady done = absurd (done refl)
advance-append buf more (err e) r' (inl cut) done = cc
advance-append buf more (err e) r' (inr (same, w)) done = rw same

-- On a buffer that starts with a first byte of the protocol, once `decode` answers anything but to
-- wait, more bytes do not change the answer: they stay behind the frame, and an error stays.
pub decode-append :
    (f64 : FloatText) (c : RespCodec) (b : ℕ) (buf more : List ℕ)
    → is_known_prefix (prefix_of b) c.version ≡ true
    → decode f64 c (b ∷ buf) ≢ wait
    → decode f64 c ((b ∷ buf) ++ more) ≡ extend more (decode f64 c (b ∷ buf))
decode-append f64 c b buf more known done =
    let first = decode-known f64 c b buf known in
    let later = decode-known f64 c b (buf ++ more) known in
    rw (first, later)
      (advance-append (b ∷ buf) more (parse_frame f64 c (suc max_depth) (b ∷ buf))
        (parse_frame f64 c (suc max_depth) ((b ∷ buf) ++ more))
        (parse_frame-IsSteady f64 c (suc max_depth) (b ∷ buf) more) (rw first at done))

abbrev left_over : Decoded → List ℕ
left_over (frame f rest) = rest
left_over _ = []

-- A reader's answer on a buffer of `len` bytes takes at least one of them, and no more than all.
abbrev Takes {ℓ} : {A : Type ℓ} → Result ProtocolError (A × ℕ) → ℕ → Type 0
Takes (ok (a, n)) len = (0 < n) × (n ≤ len)
Takes (err e) len = Unit

after-Takes {ℓ} :
    {A : Type ℓ} (r r' : Result ProtocolError (A × ℕ)) (len : ℕ)
    → Steady (after 1 r) r' len
    → Takes (after 1 r) len
after-Takes (ok (a, n)) r' len (inl cut) = cc
after-Takes (ok (a, n)) r' len (inr (same, w)) = (omega arith, w)
after-Takes (err e) r' len steady = tt

parse_frame-Takes :
    (f64 : FloatText) (c : RespCodec) (levels : ℕ) (buf : List ℕ)
    → Takes (parse_frame f64 c levels buf) (length buf)
unfolding parse_frame
parse_frame-Takes f64 c zero buf = tt
parse_frame-Takes f64 c (suc levels) [] = tt
parse_frame-Takes f64 c (suc levels) (b ∷ rest) =
    after-Takes _ _ (length (b ∷ rest)) (parse_frame-IsSteady f64 c (suc levels) (b ∷ rest) [])

advance-length :
    (buf rest : List ℕ) (r : Result ProtocolError (Frame × ℕ)) (f : Frame)
    → Takes r (length buf)
    → advance buf r ≡ frame f rest
    → length rest < length buf
advance-length buf rest (ok (f', n)) f bounds e =
    let behind : drop n buf ≡ rest = ground (arith, e) in
    omega (arith, bounds.0, bounds.1, ap length behind, length-drop n buf)
advance-length buf rest (err incomplete) f bounds e = cc
advance-length buf rest (err e') f bounds e = cc

match_inline_ping-Takes :
    (buf : List ℕ) (n : ℕ) → match_inline_ping buf ≡ some n → (0 < n) × (n ≤ length buf)
unfolding match_inline_ping ends_line
match_inline_ping-Takes (a ∷ b ∷ c ∷ d ∷ []) n e = ground arith
match_inline_ping-Takes (a ∷ b ∷ c ∷ d ∷ e ∷ []) n h = ground arith
match_inline_ping-Takes (a ∷ b ∷ c ∷ d ∷ e ∷ f ∷ rest) n h = ground arith
match_inline_ping-Takes _ n e = cc

decode_framed-length :
    (f64 : FloatText) (c : RespCodec) (buf rest : List ℕ) (f : Frame)
    → decode_framed f64 c buf ≡ frame f rest
    → length rest < length buf
unfolding decode_framed
decode_framed-length f64 c [] rest f e = cc
decode_framed-length f64 c (b ∷ buf) rest f e =
    elim (Bool-cases (is_known_prefix (prefix_of b) c.version)) [
      | inl known ↦
          advance-length (b ∷ buf) rest (parse_frame f64 c (suc max_depth) (b ∷ buf)) f
            (parse_frame-Takes f64 c (suc max_depth) (b ∷ buf)) (rw known at e)
      | inr unknown ↦ ground (arith, e)
    ]

-- A frame that `decode` answers takes at least one byte off the buffer, so that a loop which
-- decodes until it has to wait ends.
pub decode-length :
    (f64 : FloatText) (c : RespCodec) (buf rest : List ℕ) (f : Frame)
    → decode f64 c buf ≡ frame f rest
    → length rest < length buf
unfolding decode
decode-length f64 c buf rest f e = elim (Option-cases (match_inline_ping buf)) [
  | inl framed ↦ decode_framed-length f64 c buf rest f (rw framed at e)
  | inr (n, ping) ↦
      let takes = match_inline_ping-Takes buf n ping in
      let behind : frame ping_frame (drop n buf) ≡ frame f rest = rw ping at e in
      omega (arith, takes.0, takes.1, ap length (ap left_over behind), length-drop n buf)
]
