-- ===== src/Storage/Entry/RoundTrip.antt =====
-- The codec of crates/kamino-storage/src/entry.rs: decoding what was encoded.
use kamino.Prelude.{
  ℕ, ◌+◌, ◌≤◌, ◌≡◌, refl, ◌∙◌, List, [], ◌∷◌, ◌++◌, arith, length, slice, length-append,
  slice-append_left, slice-append_right, slice-zero, length-slice, append_assoc,
}
use kamino.Prelude.Int.{ℤ, InI64, to_u64, from_u64, to_u64-lt, from_u64-to_u64}
use kamino.Prelude.Bytes.{to_le_bytes, from_le_bytes, length-to_le_bytes, from_le_bytes-to_le_bytes}
use kamino.Storage.Outcome.{ok}
use kamino.Storage.Entry.{Entry, encoded_len, encoded, encode_into, decode, IsEncodable}

pub length-encoded : (e : Entry) → length (encoded e) ≡ encoded_len e
unfolding encoded encoded_len
length-encoded e = simp (length-append, length-to_le_bytes) (omega arith)

pub encode_into_lem :
    (e : Entry) (buf : List ℕ) → IsEncodable e → encode_into e buf ≡ ok (buf ++ encoded e)
unfolding encode_into
encode_into_lem e buf h = ground arith

pub encode_into_inv :
    (e : Entry) (buf : List ℕ) {buf' : List ℕ}
    → encode_into e buf ≡ ok buf'
    → buf' ≡ buf ++ encoded e
unfolding encode_into
encode_into_inv e buf h = ground arith

-- The slices of a buffer that is laid out as the header says.
module _ (k : ℕ) (K A B C D V : List ℕ) (lk : length K ≡ k) (la : length A ≡ 8) (lb : length B ≡ 8)
    (lc : length C ≡ 8) (ld : length D ≡ 4) where
  abbrev laid : List ℕ
  laid = k ∷ K ++ (A ++ (B ++ (C ++ (D ++ V))))

  slice_key : slice 1 k laid ≡ K
  slice_key = slice-append_right 1 0 k (k ∷ []) _ (omega arith) ∙ slice-zero k K _ lk

  slice_ttl : slice (1 + k) 8 laid ≡ A
  slice_ttl = slice-append_right (1 + k) 0 8 (k ∷ K) _ (omega arith) ∙ slice-zero 8 A _ la

  slice_timestamp : slice (9 + k) 8 laid ≡ B
  slice_timestamp =
      slice-append_right (9 + k) 8 8 (k ∷ K) _ (omega arith)
      ∙ slice-append_right 8 0 8 A _ (omega arith)
      ∙ slice-zero 8 B _ lb

  slice_last_access : slice (17 + k) 8 laid ≡ C
  slice_last_access =
      slice-append_right (17 + k) 16 8 (k ∷ K) _ (omega arith)
      ∙ slice-append_right 16 8 8 A _ (omega arith)
      ∙ slice-append_right 8 0 8 B _ (omega arith)
      ∙ slice-zero 8 C _ lc

  after_access : (i j n : ℕ) → 25 + k + j ≡ i → slice i n laid ≡ slice j n (D ++ V)
  after_access i j n h =
      slice-append_right i (24 + j) n (k ∷ K) _ (omega arith)
      ∙ slice-append_right (24 + j) (16 + j) n A _ (omega arith)
      ∙ slice-append_right (16 + j) (8 + j) n B _ (omega arith)
      ∙ slice-append_right (8 + j) j n C _ (omega arith)

  slice_val_len : slice (25 + k) 4 laid ≡ D
  slice_val_len = after_access (25 + k) 0 4 (omega arith) ∙ slice-zero 4 D _ ld

  slice_rest : (n : ℕ) → slice (29 + k) n laid ≡ slice 0 n V
  slice_rest n =
      after_access (29 + k) 4 n (omega arith) ∙ slice-append_right 4 0 n D _ (omega arith)

  length-laid : length laid ≡ 29 + k + length V
  length-laid = simp length-append (omega arith)

  -- What `decode` reads from such a buffer.
  decode-laid :
      from_le_bytes D ≤ 4294967295
      → from_le_bytes D ≤ length V
      → decode laid
        ≡ ok (
          record {
            key = K;
            ttl_nanos = from_u64 (from_le_bytes A);
            timestamp_nanos = from_u64 (from_le_bytes B);
            last_access_nanos = from_u64 (from_le_bytes C);
            value = slice 0 (from_le_bytes D) V;
          },
          29 + k + from_le_bytes D,
        )
  unfolding decode
  decode-laid small fits = ground (
    arith,
    length-laid,
    slice_key,
    slice_ttl,
    slice_timestamp,
    slice_last_access,
    slice_val_len,
    slice_rest (from_le_bytes D),
  )

stamp-round_trip : (t : ℤ) → InI64 t → from_u64 (from_le_bytes (to_le_bytes 8 (to_u64 t))) ≡ t
stamp-round_trip t h =
    rw (from_le_bytes-to_le_bytes 8 (to_u64 t) (to_u64-lt t h)) (from_u64-to_u64 t h)

-- Decoding what was encoded gives the entry back and takes exactly its encoded length, whatever
-- bytes follow, for an entry whose key and value fit the length fields and whose time stamps are
-- 64-bit integers.
pub decode-encoded :
    (e : Entry) (rest : List ℕ) → IsEncodable e → decode (encoded e ++ rest) ≡ ok (e, encoded_len e)
unfolding encoded encoded_len
decode-encoded e rest h =
    let d = to_le_bytes 4 (length e.value) in
    let len : from_le_bytes d ≡ length e.value =
      from_le_bytes-to_le_bytes 4 (length e.value) (omega (arith, h)) in
    simp append_assoc (
      decode-laid (length e.key) e.key (to_le_bytes 8 (to_u64 e.ttl_nanos))
        (to_le_bytes 8 (to_u64 e.timestamp_nanos)) (to_le_bytes 8 (to_u64 e.last_access_nanos)) d
        (e.value ++ rest) refl (length-to_le_bytes 8 _) (length-to_le_bytes 8 _)
        (length-to_le_bytes 8 _) (length-to_le_bytes 4 _) (omega (arith, len, h.value_fits))
        (rw (len, length-append) (omega arith))
      ∙ ground (
        arith,
        len,
        stamp-round_trip e.ttl_nanos h.ttl_i64,
        stamp-round_trip e.timestamp_nanos h.timestamp_i64,
        stamp-round_trip e.last_access_nanos h.last_access_i64,
        slice-zero (length e.value) e.value rest refl,
      ))

-- More bytes behind an entry that decodes do not change what is decoded.
pub decode-append :
    (b r : List ℕ) {e : Entry} {n : ℕ} → decode b ≡ ok (e, n) → decode (b ++ r) ≡ ok (e, n)
unfolding decode
decode-append [] r h = cc
decode-append (k ∷ b) r h = ground (
  arith,
  length-append (k ∷ b) r,
  slice-append_left 1 k (k ∷ b) r,
  slice-append_left (1 + k) 8 (k ∷ b) r,
  slice-append_left (9 + k) 8 (k ∷ b) r,
  slice-append_left (17 + k) 8 (k ∷ b) r,
  slice-append_left (25 + k) 4 (k ∷ b) r,
  slice-append_left (29 + k) (from_le_bytes (slice (25 + k) 4 (k ∷ b))) (k ∷ b) r,
)

-- An entry that decodes lies within the buffer, and the bytes it takes are its encoded length.
pub decode-bounds :
    (b : List ℕ) {e : Entry} {n : ℕ} → decode b ≡ ok (e, n) → (n ≤ length b) × (n ≡ encoded_len e)
unfolding decode encoded_len
decode-bounds [] h = cc
decode-bounds (k ∷ b) h = ground (
  arith,
  length-slice 1 k (k ∷ b),
  length-slice (29 + k) (from_le_bytes (slice (25 + k) 4 (k ∷ b))) (k ∷ b),
)
