-- ===== src/Protocol/Codec/Steady.antt =====
-- A complete answer of a reader does not change when more bytes arrive, and it takes no more bytes
-- than there are.
use kamino.Prelude.{
  ℕ, zero, suc, ◌+◌, ◌-◌, ◌≤◌, ◌≡◌, refl, ◌⊎◌, inl, inr, false, ◌&&◌, List, [], ◌∷◌, ◌++◌, arith,
  ltb, ◌==◌, length, take, drop, Bool-cases, length-append, length-drop, drop-append_le,
  take-append_le,
}
use kamino.Prelude.Int.{ℤ, pos, negsuc}
use kamino.Protocol.Frame.{
  Frame, array, map_frame, set_frame, push_frame, integer, simple_string, error,
}
use kamino.Protocol.Error.{
  Result, ok, err, ◌>>=◌, Counted, array_length, map_length, set_length, push_length, ProtocolError,
  incomplete, simple_string_not_utf8, error_not_utf8,
}
use kamino.Protocol.Codec.{
  Reader, FloatText, RespCodec, Prefix, plus, minus, colon, dollar, star, resp3_prefix, other,
  Resp3Prefix, percent, tilde, greater, hash, comma, underscore, paren, is_resp3, after, wrap,
  read_line, on_line, parse_i64, starts_with_crlf, parse_payload, parse_bulk_body, with_header,
  parse_bulk, parse_frames, parse_pairs, parse_counted, parse_array_body, parse_array, parse_set,
  parse_push, parse_map, parse_boolean, parse_null, parse_double, parse_big_number, parse_resp3,
  parse_rest, parse_frame, prefix_of, text_line,
}

abbrev pub Within {ℓ} : {A : Type ℓ} → Result ProtocolError (A × ℕ) → ℕ → Type 0
Within (ok (a, n)) len = n ≤ len
Within (err e) len = Unit

-- `r` is the answer on a buffer of `len` bytes, `r'` the answer when more bytes stand behind them.
abbrev pub Steady {ℓ} :
    {A : Type ℓ} → Result ProtocolError (A × ℕ) → Result ProtocolError (A × ℕ) → ℕ → Type ℓ
Steady r r' len = (r ≡ err incomplete) ⊎ ((r' ≡ r) × Within r len)

abbrev pub IsSteady {ℓ} : {A : Type ℓ} → Reader A → Type ℓ
IsSteady p = (buf more : List ℕ) → Steady (p buf) (p (buf ++ more)) (length buf)

bind-Steady {ℓ κ} :
    {A : Type ℓ} {B : Type κ} (r r' : Result ProtocolError (A × ℕ))
    (k k' : A × ℕ → Result ProtocolError (B × ℕ)) (len whole : ℕ)
    → Steady r r' len
    → ((a : A) (n : ℕ) → n ≤ len → Steady (k (a, n)) (k' (a, n)) whole)
    → Steady (r >>= k) (r' >>= k') whole
bind-Steady (err e) r' k k' len whole (inl cut) later = inl cc
bind-Steady (err e) r' k k' len whole (inr (same, w)) later = inr (rw same, tt)
bind-Steady (ok (a, n)) r' k k' len whole (inl cut) later = cc
bind-Steady (ok (a, n)) r' k k' len whole (inr (same, w)) later = rw same (later a n w)

after-Steady {ℓ} :
    {A : Type ℓ} (n : ℕ) (r r' : Result ProtocolError (A × ℕ)) (len whole : ℕ)
    → n + len ≤ whole
    → Steady r r' len
    → Steady (after n r) (after n r') whole
after-Steady n (err e) r' len whole h (inl cut) = inl cc
after-Steady n (err e) r' len whole h (inr (same, w)) = inr (rw same, tt)
after-Steady n (ok (a, k)) r' len whole h (inl cut) = cc
after-Steady n (ok (a, k)) r' len whole h (inr (same, w)) = inr (rw same, omega arith)

wrap-Steady {ℓ κ} :
    {A : Type ℓ} {B : Type κ} (f : A → B) (r r' : Result ProtocolError (A × ℕ)) (len : ℕ)
    → Steady r r' len
    → Steady (wrap f r) (wrap f r') len
wrap-Steady f (err e) r' len (inl cut) = inl cc
wrap-Steady f (err e) r' len (inr (same, w)) = inr (rw same, tt)
wrap-Steady f (ok (a, k)) r' len (inl cut) = cc
wrap-Steady f (ok (a, k)) r' len (inr (same, w)) = inr (rw same, w)

-- An answer that the buffer has no part in.
fixed-Steady {ℓ} :
    {A : Type ℓ} (r : Result ProtocolError A) (n len : ℕ)
    → n ≤ len
    → Steady (r >>= λ a. ok (a, n)) (r >>= λ a. ok (a, n)) len
fixed-Steady (ok a) n len h = inr (refl, h)
fixed-Steady (err e) n len h = inr (refl, tt)

value-Steady {ℓ κ} :
    {A : Type ℓ} {B : Type κ} (r : Result ProtocolError A) (k k' : A → Result ProtocolError (B × ℕ))
    (len : ℕ)
    → ((a : A) → Steady (k a) (k' a) len)
    → Steady (r >>= k) (r >>= k') len
value-Steady (ok a) k k' len later = later a
value-Steady (err e) k k' len later = inr (refl, tt)

drop-Steady {ℓ} :
    {A : Type ℓ} (p : Reader A) (n : ℕ) (buf more : List ℕ)
    → IsSteady p
    → n ≤ length buf
    → Steady (p (drop n buf)) (p (drop n (buf ++ more))) (length buf - n)
drop-Steady p n buf more steady h =
    rw (drop-append_le n buf more h, ← length-drop n buf) (steady (drop n buf) more)

read_line-IsSteady : IsSteady read_line
unfolding read_line
read_line-IsSteady [] more = inl refl
read_line-IsSteady (a ∷ []) more = inl refl
read_line-IsSteady (a ∷ b ∷ rest) more = elim (Bool-cases ((a == 13) && (b == 10))) [
  | inl line ↦ rw line (inr (refl, omega arith))
  | inr inside ↦ rw inside (
      bind-Steady (read_line (b ∷ rest)) (read_line (b ∷ rest ++ more)) _ _ (length (b ∷ rest))
        (length (a ∷ b ∷ rest)) (read_line-IsSteady (b ∷ rest) more)
        λ s n h. inr (refl, omega arith))
]

on_line-IsSteady : (f : List ℕ → Result ProtocolError Frame) → IsSteady (on_line f)
on_line-IsSteady f buf more =
    bind-Steady (read_line buf) (read_line (buf ++ more)) _ _ (length buf) (length buf)
      (read_line-IsSteady buf more) λ s n h. fixed-Steady (f s) n (length buf) h

with_header-IsSteady :
    (body : ℤ → Reader Frame) → ((v : ℤ) → IsSteady (body v)) → IsSteady (with_header body)
unfolding with_header
with_header-IsSteady body steady buf more =
    bind-Steady (read_line buf) (read_line (buf ++ more)) _ _ (length buf) (length buf)
      (read_line-IsSteady buf more)
      λ s n h. value-Steady (parse_i64 s) _ _ (length buf) λ v.
        after-Steady n (body v (drop n buf)) (body v (drop n (buf ++ more))) (length buf - n)
          (length buf) (omega arith) (drop-Steady (body v) n buf more (steady v) h)

starts_with_crlf-append :
    (xs ys : List ℕ) → 2 ≤ length xs → starts_with_crlf (xs ++ ys) ≡ starts_with_crlf xs
starts_with_crlf-append [] ys h = absurd (omega arith)
starts_with_crlf-append (a ∷ []) ys h = absurd (omega arith)
starts_with_crlf-append (a ∷ b ∷ xs) ys h = refl

parse_payload-IsSteady : (len : ℕ) → IsSteady (parse_payload len)
unfolding parse_payload
parse_payload-IsSteady len buf more = elim (Bool-cases (ltb (length buf) (len + 2))) [
  | inl cut ↦ rw cut (inl refl)
  | inr whole ↦
      let enough : len + 2 ≤ length buf = ground arith in
      let still : ltb (length (buf ++ more)) (len + 2) ≡ false =
        ground (arith, length-append buf more) in
      let behind : drop len (buf ++ more) ≡ drop len buf ++ more =
        drop-append_le len buf more (omega arith) in
      let payload : take len (buf ++ more) ≡ take len buf =
        take-append_le len buf more (omega arith) in
      let mark : starts_with_crlf (drop len buf ++ more) ≡ starts_with_crlf (drop len buf) =
        starts_with_crlf-append (drop len buf) more (omega (arith, length-drop len buf)) in
      elim (Bool-cases (starts_with_crlf (drop len buf))) [
        | inl found ↦ rw (whole, still, behind, payload, mark, found) (inr (refl, enough))
        | inr missing ↦ rw (whole, still, behind, mark, missing) (inr (refl, tt))
      ]
]

parse_bulk_body-IsSteady : (limit : ℕ) (v : ℤ) → IsSteady (parse_bulk_body limit v)
unfolding parse_bulk_body
parse_bulk_body-IsSteady limit (negsuc zero) buf more = inr (refl, omega arith)
parse_bulk_body-IsSteady limit (negsuc (suc n)) buf more = inr (refl, tt)
parse_bulk_body-IsSteady limit (pos len) buf more = elim (Bool-cases (ltb limit len)) [
  | inl large ↦ rw large (inr (refl, tt))
  | inr fits ↦ rw fits (parse_payload-IsSteady len buf more)
]

parse_frames-IsSteady :
    (item : Reader Frame) (count : ℕ) → IsSteady item → IsSteady (parse_frames item count)
unfolding parse_frames
parse_frames-IsSteady item zero steady buf more = inr (refl, omega arith)
parse_frames-IsSteady item (suc count) steady buf more =
    bind-Steady (item buf) (item (buf ++ more)) _ _ (length buf) (length buf) (steady buf more)
      λ f n h.
        bind-Steady (parse_frames item count (drop n buf))
          (parse_frames item count (drop n (buf ++ more))) _ _ (length buf - n) (length buf)
          (drop-Steady (parse_frames item count) n buf more
            (parse_frames-IsSteady item count steady) h)
          λ fs k j. inr (refl, omega arith)

parse_pairs-IsSteady :
    (item : Reader Frame) (count : ℕ) → IsSteady item → IsSteady (parse_pairs item count)
unfolding parse_pairs
parse_pairs-IsSteady item zero steady buf more = inr (refl, omega arith)
parse_pairs-IsSteady item (suc count) steady buf more =
    bind-Steady (item buf) (item (buf ++ more)) _ _ (length buf) (length buf) (steady buf more)
      λ f n h.
        bind-Steady (item (drop n buf)) (item (drop n (buf ++ more))) _ _ (length buf - n)
          (length buf) (drop-Steady item n buf more steady h)
          λ g m i.
            bind-Steady (parse_pairs item count (drop (n + m) buf))
              (parse_pairs item count (drop (n + m) (buf ++ more))) _ _ (length buf - (n + m))
              (length buf)
              (drop-Steady (parse_pairs item count) (n + m) buf more
                (parse_pairs-IsSteady item count steady) (omega arith))
              λ ps k j. inr (refl, omega arith)

parse_counted-IsSteady {ℓ} :
    {A : Type ℓ} (kind : Counted) (elements : ℕ → Reader A) (make : A → Frame) (limit : ℕ) (v : ℤ)
    → ((n : ℕ) → IsSteady (elements n))
    → IsSteady (parse_counted kind elements make limit v)
unfolding parse_counted
parse_counted-IsSteady kind elements make limit (negsuc n) steady buf more = inr (refl, tt)
parse_counted-IsSteady kind elements make limit (pos n) steady buf more =
    elim (Bool-cases (ltb limit n)) [
      | inl large ↦ rw large (inr (refl, tt))
      | inr fits ↦ rw fits (
          wrap-Steady make (elements n buf) (elements n (buf ++ more)) (length buf)
            (steady n buf more))
    ]

parse_array_body-IsSteady :
    (item : Reader Frame) (limit : ℕ) (v : ℤ)
    → IsSteady item
    → IsSteady (parse_array_body item limit v)
unfolding parse_array_body
parse_array_body-IsSteady item limit (negsuc zero) steady = λ buf more. inr (refl, omega arith)
parse_array_body-IsSteady item limit v steady =
    parse_counted-IsSteady array_length (parse_frames item) array limit v
      λ n. parse_frames-IsSteady item n steady

parse_resp3-IsSteady :
    (f64 : FloatText) (c : RespCodec) (item : Reader Frame) (p : Resp3Prefix)
    → IsSteady item
    → IsSteady (parse_resp3 f64 c item p)
unfolding parse_resp3 parse_map parse_set parse_push
parse_resp3-IsSteady f64 c item percent steady = with_header-IsSteady _ λ v.
    parse_counted-IsSteady map_length (parse_pairs item) map_frame c.max_array_len v
      λ n. parse_pairs-IsSteady item n steady
parse_resp3-IsSteady f64 c item tilde steady = with_header-IsSteady _ λ v.
    parse_counted-IsSteady set_length (parse_frames item) set_frame c.max_array_len v
      λ n. parse_frames-IsSteady item n steady
parse_resp3-IsSteady f64 c item greater steady = with_header-IsSteady _ λ v.
    parse_counted-IsSteady push_length (parse_frames item) push_frame c.max_array_len v
      λ n. parse_frames-IsSteady item n steady
parse_resp3-IsSteady f64 c item hash steady = on_line-IsSteady parse_boolean
parse_resp3-IsSteady f64 c item comma steady = on_line-IsSteady (parse_double f64)
parse_resp3-IsSteady f64 c item underscore steady = on_line-IsSteady parse_null
parse_resp3-IsSteady f64 c item paren steady = on_line-IsSteady parse_big_number

parse_rest-IsSteady :
    (f64 : FloatText) (c : RespCodec) (item : Reader Frame) (p : Prefix) (b : ℕ)
    → IsSteady item
    → IsSteady (parse_rest f64 c item p b)
unfolding parse_rest parse_bulk parse_array
parse_rest-IsSteady f64 c item plus b steady =
    on_line-IsSteady (text_line simple_string_not_utf8 simple_string)
parse_rest-IsSteady f64 c item minus b steady = on_line-IsSteady (text_line error_not_utf8 error)
parse_rest-IsSteady f64 c item colon b steady =
    on_line-IsSteady λ line. parse_i64 line >>= λ (v : ℤ). ok (integer v)
parse_rest-IsSteady f64 c item dollar b steady =
    with_header-IsSteady _ (parse_bulk_body-IsSteady c.max_bulk_size)
parse_rest-IsSteady f64 c item star b steady =
    with_header-IsSteady _ λ v. parse_array_body-IsSteady item c.max_array_len v steady
parse_rest-IsSteady f64 c item (resp3_prefix p) b steady = λ buf more.
    elim (Bool-cases (is_resp3 c.version)) [
      | inl upgraded ↦ rw upgraded (parse_resp3-IsSteady f64 c item p steady buf more)
      | inr early ↦ rw early (inr (refl, tt))
    ]
parse_rest-IsSteady f64 c item other b steady = λ buf more. inr (refl, tt)

pub parse_frame-IsSteady :
    (f64 : FloatText) (c : RespCodec) (levels : ℕ) → IsSteady (parse_frame f64 c levels)
unfolding parse_frame
parse_frame-IsSteady f64 c zero buf more = inr (refl, tt)
parse_frame-IsSteady f64 c (suc levels) [] more = inl refl
parse_frame-IsSteady f64 c (suc levels) (b ∷ rest) more =
    after-Steady 1 _ _ (length rest) (suc (length rest)) (omega arith) (
      parse_rest-IsSteady f64 c (parse_frame f64 c levels) (prefix_of b) b
        (parse_frame-IsSteady f64 c levels) rest more)
