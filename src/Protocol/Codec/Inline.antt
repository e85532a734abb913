-- ===== src/Protocol/Codec/Inline.antt =====
-- The inline command of crates/kamino-protocol/src/codec.rs, `match_inline_ping`, in a receive
-- buffer that fills in steps.
use kamino.Prelude.{
  ℕ, zero, suc, ◌+◌, ◌<◌, ◌≡◌, refl, true, List, [], ◌∷◌, ◌++◌, none, some, arith, length, take,
  Bool-cases, inl, inr, ltb,
}
use kamino.Protocol.Error.{inline_command_rejected}
use kamino.Protocol.Codec.{
  FloatText, RespCodec, prefix_of, is_known_prefix, match_inline_ping, ends_line, ping_frame,
  to_lower, is_ping, frame, refused, decode_framed, decode,
}

-- A letter in either case.
pub data Letter (upper : ℕ) : ℕ → Type 0 where
  as_upper : Letter upper upper
  as_lower : Letter upper (upper + 32)

-- The lines that say `PING`: each letter in either case, and one of the two line ends.
pub data PingLine : List ℕ → Type 0 where
  by_lf :
      {a b c d : ℕ}
      → Letter b'P' a
      → Letter b'I' b
      → Letter b'N' c
      → Letter b'G' d
      → PingLine (a ∷ b ∷ c ∷ d ∷ 10 ∷ [])
  by_crlf :
      {a b c d : ℕ}
      → Letter b'P' a
      → Letter b'I' b
      → Letter b'N' c
      → Letter b'G' d
      → PingLine (a ∷ b ∷ c ∷ d ∷ 13 ∷ 10 ∷ [])

Letter-P : {a : ℕ} → Letter b'P' a → to_lower a ≡ b'p'
Letter-P as_upper = refl
Letter-P as_lower = refl

Letter-I : {a : ℕ} → Letter b'I' a → to_lower a ≡ b'i'
Letter-I as_upper = refl
Letter-I as_lower = refl

Letter-N : {a : ℕ} → Letter b'N' a → to_lower a ≡ b'n'
Letter-N as_upper = refl
Letter-N as_lower = refl

Letter-G : {a : ℕ} → Letter b'G' a → to_lower a ≡ b'g'
Letter-G as_upper = refl
Letter-G as_lower = refl

Letters-is_ping :
    {a b c d : ℕ}
    → Letter b'P' a
    → Letter b'I' b
    → Letter b'N' c
    → Letter b'G' d
    → is_ping a b c d ≡ true
unfolding is_ping
Letters-is_ping p i n g = rw (Letter-P p, Letter-I i, Letter-N n, Letter-G g) refl

-- A buffer that starts with a letter P and is no inline command yet is refused.
decode-refused :
    {a : ℕ} (f64 : FloatText) (c : RespCodec) (rest : List ℕ)
    → Letter b'P' a
    → match_inline_ping (a ∷ rest) ≡ none
    → decode f64 c (a ∷ rest) ≡ refused inline_command_rejected
unfolding decode decode_framed is_known_prefix prefix_of
decode-refused f64 c rest as_upper h = rw h refl
decode-refused f64 c rest as_lower h = rw h refl

-- The first one to four bytes are no inline command.
unmatched_letters :
    (a b c d : ℕ) (k : ℕ) (ending : List ℕ)
    → k < 4
    → match_inline_ping (a ∷ take k (b ∷ c ∷ d ∷ ending)) ≡ none
unfolding match_inline_ping ends_line
unmatched_letters a b c d zero ending small = refl
unmatched_letters a b c d (suc zero) ending small = refl
unmatched_letters a b c d (suc (suc zero)) ending small = refl
unmatched_letters a b c d (suc (suc (suc zero))) ending small =
    elim (Bool-cases (is_ping a b c d)) [ inl e ↦ rw e refl | inr e ↦ rw e refl ]
unmatched_letters a b c d (suc (suc (suc (suc k)))) ending small = absurd (omega arith)

-- Nor are five where the line feed is the sixth.
unmatched_cr : (a b c d : ℕ) → match_inline_ping (a ∷ b ∷ c ∷ d ∷ 13 ∷ []) ≡ none
unfolding match_inline_ping ends_line
unmatched_cr a b c d = elim (Bool-cases (is_ping a b c d)) [ inl e ↦ rw e refl | inr e ↦ rw e refl ]

ends_line-lf : (rest : List ℕ) → ends_line (10 ∷ rest) ≡ some 5
unfolding ends_line
ends_line-lf [] = refl
ends_line-lf (x ∷ rest) = refl

-- Of any line that says `PING`, its letters in either case and either line end, a part from its
-- start that is neither empty nor whole is refused as an inline command, in any version, while the
-- whole line is read as a `PING` frame, whatever bytes follow it.
pub decode-split_ping :
    {line : List ℕ} (f64 : FloatText) (c : RespCodec) (rest : List ℕ) (k : ℕ)
    → PingLine line
    → 0 < k
    → k < length line
    → (decode f64 c (take k line) ≡ refused inline_command_rejected)
      × (decode f64 c (line ++ rest) ≡ frame ping_frame rest)
unfolding decode match_inline_ping ends_line
decode-split_ping f64 v rest zero l h small = absurd (omega arith)
decode-split_ping f64 v rest (suc k) (by_lf {a} {b} {c} {d} p i n g) h small = (
  decode-refused f64 v (take k (b ∷ c ∷ d ∷ 10 ∷ [])) p
      (unmatched_letters a b c d k (10 ∷ []) (omega arith)),
  rw (Letters-is_ping p i n g, ends_line-lf rest) refl,
)
decode-split_ping f64 v rest (suc k) (by_crlf {a} {b} {c} {d} p i n g) h small = (
  elim (Bool-cases (ltb k 4)) [
    | inl letters ↦
        decode-refused f64 v (take k (b ∷ c ∷ d ∷ 13 ∷ 10 ∷ [])) p
          (unmatched_letters a b c d k (13 ∷ 10 ∷ []) (ground arith))
    | inr all ↦
        let five : k ≡ 4 = ground arith in
        rw five (decode-refused f64 v (b ∷ c ∷ d ∷ 13 ∷ []) p (unmatched_cr a b c d))
  ],
  rw (Letters-is_ping p i n g) refl,
)
