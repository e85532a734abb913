-- ===== src/Protocol/Frame.antt =====
-- crates/kamino-protocol/src/frame.rs: the frames of the wire protocol. A text is the list of its
-- bytes, a floating-point number its bit pattern.
use kamino.Prelude.{ℕ, Bool, true, false, List, Option}
use kamino.Prelude.Int.{ℤ}

-- A vector of frames and a vector of pairs are data types of their own.
mutual
  pub data Frame : Type 0 where
    simple_string : List ℕ → Frame
    error : List ℕ → Frame
    integer : ℤ → Frame
    bulk : Option (List ℕ) → Frame
    null_array : Frame
    array : Frames → Frame
    map_frame : Pairs → Frame
    set_frame : Frames → Frame
    push_frame : Frames → Frame
    boolean : Bool → Frame
    double : ℕ → Frame
    null : Frame
    big_number : List ℕ → Frame

  pub data Frames : Type 0 where
    no_frames : Frames
    more_frames : Frame → Frames → Frames

  pub data Pairs : Type 0 where
    no_pairs : Pairs
    more_pairs : Frame → Frame → Pairs → Pairs

unfoldable pub requires_resp3 : Frame → Bool
requires_resp3 (map_frame _) = true
requires_resp3 (set_frame _) = true
requires_resp3 (push_frame _) = true
requires_resp3 (boolean _) = true
requires_resp3 (double _) = true
requires_resp3 null = true
requires_resp3 (big_number _) = true
requires_resp3 _ = false
