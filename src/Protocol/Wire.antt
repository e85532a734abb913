-- ===== src/Protocol/Wire.antt =====
-- The two crates' sides of a connection: a client writes a command by `to_frame` and `encode`, the
-- server reads it by `decode` and `Command::parse`.
use kamino.Prelude.{ℕ, suc, ◌≤◌, ◌≡◌, refl, ap, List, [], ◌∷◌, ◌++◌, arith, length, All}
use kamino.Protocol.Frame.{Frame, array}
use kamino.Protocol.Error.{ok}
use kamino.Protocol.Codec.{FloatText, RespCodec, max_depth, frame, decode}
use kamino.Protocol.Codec.Encode.{encode_frame, written, count_frames}
use kamino.Protocol.Codec.Grammar.{height, Fits, ReceivableFrames, IsFloatText}
use kamino.Protocol.Codec.Stream.{decode-encode_frame}
use kamino.Protocol.Command.{Bytes, Command}
use kamino.Protocol.Command.Parse.{parse}
use kamino.Protocol.Command.Print.{bulks, parts, to_frame, IsSendable, ParsesSpecial}
use kamino.Protocol.Command.RoundTrip.{parse-to_frame}

-- The parts of a command are within the limits of a codec.
abbrev pub FitsCodec : RespCodec → List Bytes → Type 0
FitsCodec c bs = Fits c.max_array_len (length bs) × All (λ b. Fits c.max_bulk_size (length b)) bs

count_frames-bulks : (bs : List Bytes) → count_frames (bulks bs) ≡ length bs
unfolding count_frames bulks
count_frames-bulks [] = refl
count_frames-bulks (b ∷ bs) = ap suc (count_frames-bulks bs)

height-bulks : (bs : List Bytes) → height (array (bulks bs)) ≤ 2
unfolding height bulks
height-bulks [] = omega arith
height-bulks (b ∷ bs) = omega (arith, height-bulks bs)

bulks-Receivable :
    (c : RespCodec) (bs : List Bytes)
    → All (λ b. Fits c.max_bulk_size (length b)) bs
    → ReceivableFrames c (bulks bs)
unfolding bulks
bulks-Receivable c [] fits = tt
bulks-Receivable c (b ∷ bs) fits = (fits.0, bulks-Receivable c bs fits.1)

-- What a client writes for a command, behind whatever its send buffer holds, `decode` on the
-- server reads off the front of its receive buffer as a frame that `Command::parse` answers with
-- the same command, and it leaves the bytes that follow: for commands that keep the rules, with
-- parts within the limits of the codec, and a text codec of doubles that reads back what it
-- writes.
pub parse-decode-encode_frame :
    (f64 : FloatText) (c : RespCodec) (command : Command) (dst rest : List ℕ)
    → IsFloatText f64
    → ParsesSpecial f64
    → IsSendable command
    → FitsCodec c (parts f64 command)
    → (out : List ℕ) × (f : Frame) × (encode_frame f64 c.version (to_frame f64 command) dst
        ≡ written (dst ++ out))
      × (decode f64 c (out ++ rest) ≡ frame f rest)
      × (parse f64 f ≡ ok command)
unfolding to_frame
parse-decode-encode_frame f64 c command dst rest laws specials s fits =
    let bs = parts f64 command in
    let shallow : height (array (bulks bs)) ≤ suc max_depth = omega (arith, height-bulks bs) in
    let fit : Fits c.max_array_len (count_frames (bulks bs)) = rw (count_frames-bulks bs) fits.0 in
    let (out, sent, received) =
      decode-encode_frame f64 c (array (bulks bs)) dst rest laws shallow
        (fit, bulks-Receivable c bs fits.1) in
    (out, array (bulks bs), sent, received, parse-to_frame f64 command laws specials s)
