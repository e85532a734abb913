-- ===== src/Protocol/Codec/Limits.antt =====
-- The limits of a codec hold of every frame that it reads, and a length above them is refused
-- before its payload is there.
use kamino.Prelude.{
  ℕ, zero, suc, ◌+◌, ◌^◌, ◌≤◌, ◌<◌, ◌≡◌, refl, inl, inr, Bool, true, false, List, [], ◌∷◌, ◌++◌,
  Option, none, some, arith, ltb, length, drop, Bool-cases, length-take, lt→ltb,
}
use kamino.Prelude.Int.{ℤ, pos, negsuc}
use kamino.Protocol.Frame.{
  Frame, Frames, Pairs, simple_string, error, integer, bulk, null_array, array, map_frame,
  set_frame, push_frame, boolean, double, null, big_number, no_frames, more_frames, no_pairs,
  more_pairs,
}
use kamino.Protocol.Error.{
  Result, ok, err, ◌>>=◌, Counted, array_length, map_length, set_length, push_length, ProtocolError,
  bulk_too_large, array_too_large, simple_string_not_utf8, error_not_utf8, bad_big_number,
  bad_double, Reason,
}
use kamino.Protocol.Text.{print_nat, is_utf8}
use kamino.Protocol.Codec.{
  Reader, FloatText, RespCodec, Prefix, plus, minus, colon, dollar, star, resp3_prefix, other,
  Resp3Prefix, percent, tilde, greater, hash, comma, underscore, paren, is_resp3, is_big_number,
  guard, wrap, parse_i64, starts_with_crlf, parse_payload, parse_bulk_body, parse_bulk,
  parse_frames, parse_pairs, parse_counted, parse_array_body, parse_array, parse_set, parse_push,
  parse_map, parse_boolean, parse_null, parse_double, parse_big_number, or_parse, or_invalid,
  parse_resp3, parse_rest, parse_frame, prefix_of, text_line, special_double,
}
use kamino.Protocol.Codec.Encode.{count_frames, count_pairs}
use kamino.Protocol.Codec.Grammar.{height, height_frames, height_pairs}
use kamino.Protocol.Codec.Lines.{with_header-nat}
use kamino.Protocol.Codec.Yields.{
  Yields, bind-Yields, after-Yields, with_header-Yields, Makes, on_line-Yields,
}

-- No bulk string, no collection and no nesting in the frame is above its limit, and RESP3 frames
-- stand in it only after the upgrade.
abbrev mutual
  pub Bounded : RespCodec → Frame → Type 0
  Bounded c (simple_string s) = Unit
  Bounded c (error s) = Unit
  Bounded c (integer i) = Unit
  Bounded c (bulk none) = Unit
  Bounded c (bulk (some b)) = length b ≤ c.max_bulk_size
  Bounded c null_array = Unit
  Bounded c (array fs) = (count_frames fs ≤ c.max_array_len) × BoundedFrames c fs
  Bounded c (map_frame ps) =
      (is_resp3 c.version ≡ true) × (count_pairs ps ≤ c.max_array_len) × BoundedPairs c ps
  Bounded c (set_frame fs) =
      (is_resp3 c.version ≡ true) × (count_frames fs ≤ c.max_array_len) × BoundedFrames c fs
  Bounded c (push_frame fs) =
      (is_resp3 c.version ≡ true) × (count_frames fs ≤ c.max_array_len) × BoundedFrames c fs
  Bounded c (boolean b) = is_resp3 c.version ≡ true
  Bounded c (double d) = is_resp3 c.version ≡ true
  Bounded c null = is_resp3 c.version ≡ true
  Bounded c (big_number s) = is_resp3 c.version ≡ true

  pub BoundedFrames : RespCodec → Frames → Type 0
  BoundedFrames c no_frames = Unit
  BoundedFrames c (more_frames f fs) = Bounded c f × BoundedFrames c fs

  pub BoundedPairs : RespCodec → Pairs → Type 0
  BoundedPairs c no_pairs = Unit
  BoundedPairs c (more_pairs k v ps) = Bounded c k × Bounded c v × BoundedPairs c ps

-- A frame within the limits that nests at most as deep as allowed.
abbrev pub Admissible : RespCodec → ℕ → Frame → Type 0
Admissible c levels f = Bounded c f × (height f ≤ levels)

abbrev Elements : RespCodec → ℕ → ℕ → Frames → Type 0
Elements c levels n fs = BoundedFrames c fs × (height_frames fs ≤ levels) × (count_frames fs ≡ n)

abbrev Entries : RespCodec → ℕ → ℕ → Pairs → Type 0
Entries c levels n ps = BoundedPairs c ps × (height_pairs ps ≤ levels) × (count_pairs ps ≡ n)

parse_frames-Yields :
    (c : RespCodec) (levels : ℕ) (item : Reader Frame) (n : ℕ) (buf : List ℕ)
    → ((rest : List ℕ) → Yields (Admissible c levels) (item rest))
    → Yields (Elements c levels n) (parse_frames item n buf)
unfolding parse_frames height count_frames
parse_frames-Yields c levels item zero buf each = (tt, omega arith, refl)
parse_frames-Yields c levels item (suc n) buf each =
    bind-Yields (Admissible c levels) (Elements c levels (suc n)) (item buf) _ (each buf) λ f k a.
      bind-Yields (Elements c levels n) (Elements c levels (suc n))
        (parse_frames item n (drop k buf)) _ (parse_frames-Yields c levels item n (drop k buf) each)
        λ fs j as'. ((a.0, as'.0), omega (arith, a.1, as'.1), omega (arith, as'.2))

parse_pairs-Yields :
    (c : RespCodec) (levels : ℕ) (item : Reader Frame) (n : ℕ) (buf : List ℕ)
    → ((rest : List ℕ) → Yields (Admissible c levels) (item rest))
    → Yields (Entries c levels n) (parse_pairs item n buf)
unfolding parse_pairs height count_pairs
parse_pairs-Yields c levels item zero buf each = (tt, omega arith, refl)
parse_pairs-Yields c levels item (suc n) buf each =
    bind-Yields (Admissible c levels) (Entries c levels (suc n)) (item buf) _ (each buf) λ f k a.
      bind-Yields (Admissible c levels) (Entries c levels (suc n)) (item (drop k buf)) _
        (each (drop k buf))
        λ g j b.
          bind-Yields (Entries c levels n) (Entries c levels (suc n))
            (parse_pairs item n (drop (k + j) buf)) _
            (parse_pairs-Yields c levels item n (drop (k + j) buf) each)
            λ ps i rest.
              ((a.0, b.0, rest.0), omega (arith, a.1, b.1, rest.1), omega (arith, rest.2))

wrap-Yields {ℓ κ} :
    {A : Type ℓ} (P : A → Type κ) (Q : Frame → Type 0) (make : A → Frame)
    (r : Result ProtocolError (A × ℕ))
    → Yields P r
    → ((a : A) → P a → Q (make a))
    → Yields Q (wrap make r)
wrap-Yields P Q make (ok (a, k)) y made = made a y
wrap-Yields P Q make (err e) y made = tt

parse_counted-Yields {ℓ κ} :
    {A : Type ℓ} (P : ℕ → A → Type κ) (Q : Frame → Type 0) (kind : Counted)
    (elements : ℕ → Reader A) (make : A → Frame) (limit : ℕ) (v : ℤ) (buf : List ℕ)
    → ((n : ℕ) → Yields (P n) (elements n buf))
    → ((n : ℕ) (a : A) → n ≤ limit → P n a → Q (make a))
    → Yields Q (parse_counted kind elements make limit v buf)
unfolding parse_counted
parse_counted-Yields P Q kind elements make limit (negsuc n) buf each made = tt
parse_counted-Yields P Q kind elements make limit (pos n) buf each made =
    elim (Bool-cases (ltb limit n)) [
      | inl large ↦ rw large tt
      | inr fits ↦
          rw fits (wrap-Yields (P n) Q make (elements n buf) (each n) λ a. made n a (ground arith))
    ]

parse_payload-Yields :
    (c : RespCodec) (levels len : ℕ) (buf : List ℕ)
    → len ≤ c.max_bulk_size
    → Yields (Admissible c (suc levels)) (parse_payload len buf)
unfolding parse_payload height
parse_payload-Yields c levels len buf h = elim (Bool-cases (ltb (length buf) (len + 2))) [
  | inl cut ↦ rw cut tt
  | inr whole ↦ elim (Bool-cases (starts_with_crlf (drop len buf))) [
    | inl found ↦ rw (whole, found) (omega (arith, length-take len buf), omega arith)
    | inr missing ↦ rw (whole, missing) tt
  ]
]

parse_bulk_body-Yields :
    (c : RespCodec) (levels : ℕ) (v : ℤ) (buf : List ℕ)
    → Yields (Admissible c (suc levels)) (parse_bulk_body c.max_bulk_size v buf)
unfolding parse_bulk_body height
parse_bulk_body-Yields c levels (negsuc zero) buf = (tt, omega arith)
parse_bulk_body-Yields c levels (negsuc (suc n)) buf = tt
parse_bulk_body-Yields c levels (pos len) buf = elim (Bool-cases (ltb c.max_bulk_size len)) [
  | inl large ↦ rw large tt
  | inr fits ↦ rw fits (parse_payload-Yields c levels len buf (ground arith))
]

-- Frames on one line that the upgrade brings.
abbrev IsLate : Frame → Type 0
IsLate (boolean b) = Unit
IsLate (double d) = Unit
IsLate null = Unit
IsLate (big_number s) = Unit
IsLate _ = ⊥

IsLate-Admissible :
    (c : RespCodec) (levels : ℕ) (r : Result ProtocolError Frame)
    → is_resp3 c.version ≡ true
    → Makes IsLate r
    → Makes (Admissible c (suc levels)) r
unfolding height
IsLate-Admissible c levels (ok (boolean b)) h m = (h, omega arith)
IsLate-Admissible c levels (ok (double d)) h m = (h, omega arith)
IsLate-Admissible c levels (ok null) h m = (h, omega arith)
IsLate-Admissible c levels (ok (big_number s)) h m = (h, omega arith)
IsLate-Admissible c levels (ok _) h m = absurd m
IsLate-Admissible c levels (err e) h m = tt

parse_boolean-IsLate : (s : List ℕ) → Makes IsLate (parse_boolean s)
unfolding parse_boolean
parse_boolean-IsLate (x ∷ []) = ground arith
parse_boolean-IsLate _ = tt

parse_null-IsLate : (s : List ℕ) → Makes IsLate (parse_null s)
unfolding parse_null
parse_null-IsLate [] = tt
parse_null-IsLate (x ∷ s) = tt

guard-IsLate :
    (b : Bool) (reason : Reason) (s : List ℕ) (f : List ℕ → Result ProtocolError Frame)
    → Makes IsLate (f s)
    → Makes IsLate (guard b reason s >>= f)
guard-IsLate true reason s f m = m
guard-IsLate false reason s f m = tt

or_invalid-IsLate :
    (o : Option ℕ) (reason : Reason) → Makes IsLate (or_invalid o reason >>= λ d. ok (double d))
or_invalid-IsLate none reason = tt
or_invalid-IsLate (some d) reason = tt

or_parse-IsLate :
    (f64 : FloatText) (s : List ℕ) (special : Option ℕ) → Makes IsLate (or_parse f64 s special)
or_parse-IsLate f64 s (some d) = tt
or_parse-IsLate f64 s none = or_invalid-IsLate (f64.parse s) (bad_double s)

parse_double-IsLate : (f64 : FloatText) (s : List ℕ) → Makes IsLate (parse_double f64 s)
unfolding parse_double
parse_double-IsLate f64 s =
    guard-IsLate (is_utf8 s) _ s _ (or_parse-IsLate f64 s (special_double s))

parse_big_number-IsLate : (s : List ℕ) → Makes IsLate (parse_big_number s)
unfolding parse_big_number
parse_big_number-IsLate s = guard-IsLate (is_utf8 s) _ s _ (checked (is_big_number s))
  where
    checked : (b : Bool) → Makes IsLate (guard b (bad_big_number s) (big_number s))
    checked true = tt
    checked false = tt

parse_resp3-Yields :
    (f64 : FloatText) (c : RespCodec) (levels : ℕ) (item : Reader Frame) (p : Resp3Prefix)
    (buf : List ℕ)
    → is_resp3 c.version ≡ true
    → ((rest : List ℕ) → Yields (Admissible c levels) (item rest))
    → Yields (Admissible c (suc levels)) (parse_resp3 f64 c item p buf)
unfolding parse_resp3 parse_map parse_set parse_push height
parse_resp3-Yields f64 c levels item percent buf upgraded each =
    with_header-Yields (Admissible c (suc levels))
      (parse_counted map_length (parse_pairs item) map_frame c.max_array_len) buf
      λ v rest.
        parse_counted-Yields (Entries c levels) (Admissible c (suc levels)) map_length
          (parse_pairs item) map_frame c.max_array_len v rest
          (λ n. parse_pairs-Yields c levels item n rest each)
          λ n ps fits e. ((upgraded, omega (arith, e.2), e.0), omega (arith, e.1))
parse_resp3-Yields f64 c levels item tilde buf upgraded each =
    with_header-Yields (Admissible c (suc levels))
      (parse_counted set_length (parse_frames item) set_frame c.max_array_len) buf
      λ v rest.
        parse_counted-Yields (Elements c levels) (Admissible c (suc levels)) set_length
          (parse_frames item) set_frame c.max_array_len v rest
          (λ n. parse_frames-Yields c levels item n rest each)
          λ n fs fits e. ((upgraded, omega (arith, e.2), e.0), omega (arith, e.1))
parse_resp3-Yields f64 c levels item greater buf upgraded each =
    with_header-Yields (Admissible c (suc levels))
      (parse_counted push_length (parse_frames item) push_frame c.max_array_len) buf
      λ v rest.
        parse_counted-Yields (Elements c levels) (Admissible c (suc levels)) push_length
          (parse_frames item) push_frame c.max_array_len v rest
          (λ n. parse_frames-Yields c levels item n rest each)
          λ n fs fits e. ((upgraded, omega (arith, e.2), e.0), omega (arith, e.1))
parse_resp3-Yields f64 c levels item hash buf upgraded each =
    on_line-Yields (Admissible c (suc levels)) parse_boolean buf
      λ s. IsLate-Admissible c levels (parse_boolean s) upgraded (parse_boolean-IsLate s)
parse_resp3-Yields f64 c levels item comma buf upgraded each =
    on_line-Yields (Admissible c (suc levels)) (parse_double f64) buf
      λ s. IsLate-Admissible c levels (parse_double f64 s) upgraded (parse_double-IsLate f64 s)
parse_resp3-Yields f64 c levels item underscore buf upgraded each =
    on_line-Yields (Admissible c (suc levels)) parse_null buf
      λ s. IsLate-Admissible c levels (parse_null s) upgraded (parse_null-IsLate s)
parse_resp3-Yields f64 c levels item paren buf upgraded each =
    on_line-Yields (Admissible c (suc levels)) parse_big_number buf
      λ s. IsLate-Admissible c levels (parse_big_number s) upgraded (parse_big_number-IsLate s)

text_line-Admissible :
    (c : RespCodec) (levels : ℕ) (b : Bool) (reason : Reason) (f : Frame)
    → Admissible c (suc levels) f
    → Makes (Admissible c (suc levels)) (guard b reason f)
text_line-Admissible c levels true reason f a = a
text_line-Admissible c levels false reason f a = tt

integer-Admissible :
    (c : RespCodec) (levels : ℕ) (r : Result ProtocolError ℤ)
    → Makes (Admissible c (suc levels)) (r >>= λ v. ok (integer v))
unfolding height
integer-Admissible c levels (ok v) = (tt, omega arith)
integer-Admissible c levels (err e) = tt

parse_array_body-Yields :
    (c : RespCodec) (levels : ℕ) (item : Reader Frame) (v : ℤ) (buf : List ℕ)
    → ((rest : List ℕ) → Yields (Admissible c levels) (item rest))
    → Yields (Admissible c (suc levels)) (parse_array_body item c.max_array_len v buf)
unfolding parse_array_body height
parse_array_body-Yields c levels item (negsuc zero) buf each = (tt, omega arith)
parse_array_body-Yields c levels item v buf each =
    parse_counted-Yields (Elements c levels) (Admissible c (suc levels)) array_length
      (parse_frames item) array c.max_array_len v buf
      (λ n. parse_frames-Yields c levels item n buf each)
      λ n fs fits e. ((omega (arith, e.2), e.0), omega (arith, e.1))

parse_rest-Yields :
    (f64 : FloatText) (c : RespCodec) (levels : ℕ) (item : Reader Frame) (p : Prefix) (b : ℕ)
    (buf : List ℕ)
    → ((rest : List ℕ) → Yields (Admissible c levels) (item rest))
    → Yields (Admissible c (suc levels)) (parse_rest f64 c item p b buf)
unfolding parse_rest parse_bulk parse_array height
parse_rest-Yields f64 c levels item plus b buf each =
    on_line-Yields (Admissible c (suc levels)) (text_line simple_string_not_utf8 simple_string) buf
      λ s. text_line-Admissible c levels (is_utf8 s) _ (simple_string s) (tt, omega arith)
parse_rest-Yields f64 c levels item minus b buf each =
    on_line-Yields (Admissible c (suc levels)) (text_line error_not_utf8 error) buf
      λ s. text_line-Admissible c levels (is_utf8 s) _ (error s) (tt, omega arith)
parse_rest-Yields f64 c levels item colon b buf each =
    on_line-Yields (Admissible c (suc levels)) _ buf λ s. integer-Admissible c levels (parse_i64 s)
parse_rest-Yields f64 c levels item dollar b buf each =
    with_header-Yields (Admissible c (suc levels)) (parse_bulk_body c.max_bulk_size) buf
      (parse_bulk_body-Yields c levels)
parse_rest-Yields f64 c levels item star b buf each =
    with_header-Yields (Admissible c (suc levels)) (parse_array_body item c.max_array_len) buf
      λ v rest. parse_array_body-Yields c levels item v rest each
parse_rest-Yields f64 c levels item (resp3_prefix p) b buf each =
    elim (Bool-cases (is_resp3 c.version)) [
      | inl upgraded ↦ rw upgraded (parse_resp3-Yields f64 c levels item p buf upgraded each)
      | inr early ↦ rw early tt
    ]
parse_rest-Yields f64 c levels item other b buf each = tt

parse_frame-Yields :
    (f64 : FloatText) (c : RespCodec) (levels : ℕ) (buf : List ℕ)
    → Yields (Admissible c levels) (parse_frame f64 c levels buf)
unfolding parse_frame
parse_frame-Yields f64 c zero buf = tt
parse_frame-Yields f64 c (suc levels) [] = tt
parse_frame-Yields f64 c (suc levels) (b ∷ rest) = after-Yields (Admissible c (suc levels)) 1 _ (
    parse_rest-Yields f64 c levels (parse_frame f64 c levels) (prefix_of b) b rest
      (parse_frame-Yields f64 c levels))

-- Whatever the buffer holds, a frame that is read off it has no bulk string and no collection
-- above the limits of the codec, nests at most as deep as the levels, and has RESP3 parts only
-- after the upgrade.
pub parse_frame-Admissible :
    (f64 : FloatText) (c : RespCodec) (levels : ℕ) (buf : List ℕ) (f : Frame) (n : ℕ)
    → parse_frame f64 c levels buf ≡ ok (f, n)
    → Admissible c levels f
parse_frame-Admissible f64 c levels buf f n e = rw e at (parse_frame-Yields f64 c levels buf)

-- A bulk string or an array with a length above its limit, and below 2^63, is refused with that
-- length as soon as its header line is there, whatever follows it.
pub parse_frame-too_large :
    (f64 : FloatText) (c : RespCodec) (levels n m : ℕ) (rest : List ℕ)
    → n < 2 ^ 63
    → m < 2 ^ 63
    → c.max_bulk_size < n
    → c.max_array_len < m
    → (parse_frame f64 c (suc levels) (b'$' ∷ (print_nat n ++ 13 ∷ 10 ∷ rest))
        ≡ err (bulk_too_large n c.max_bulk_size))
      × (parse_frame f64 c (suc levels) (b'*' ∷ (print_nat m ++ 13 ∷ 10 ∷ rest))
          ≡ err (array_too_large m c.max_array_len))
unfolding parse_frame parse_rest parse_bulk parse_array prefix_of parse_bulk_body parse_array_body
    parse_counted
parse_frame-too_large f64 c levels n m rest h i large long = (
  rw (with_header-nat (parse_bulk_body c.max_bulk_size) n rest h, lt→ltb c.max_bulk_size n large),
  rw (
    with_header-nat (parse_array_body (parse_frame f64 c levels) c.max_array_len) m rest i,
    lt→ltb c.max_array_len m long,
  ),
)
