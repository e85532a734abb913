-- ===== src/Storage/Entry.antt =====
-- crates/kamino-storage/src/entry.rs: the stored record and its binary layout.
-- A byte is a number below 256, an `i64` is an integer in range, a `Vec<u8>` is a list.
pub mod RoundTrip
use kamino.Prelude.{
  ℕ, ◌+◌, ◌-◌, ◌<◌, ◌≤◌, ◌^◌, ◌≡◌, Bool, false, not, ◌&&◌, List, [], ◌∷◌, ◌++◌, ltb, ◌==◌, leb,
  if◌then◌else◌, length, slice,
}
use kamino.Prelude.Int.{ℤ, pos, negsuc, leb_ℤ, InI64, to_u64, from_u64}
use kamino.Prelude.Bytes.{to_le_bytes, from_le_bytes}
use kamino.Storage.Outcome.{
  Result, ok, err, key_too_large, value_too_large, truncated, corruption, value_length,
  expected_bytes, ◌>>=◌,
}

-- `key_len(1) + ttl(8) + ts(8) + last_access(8) + val_len(4)`
abbrev pub header_overhead : ℕ
header_overhead = 1 + 8 + 8 + 8 + 4

abbrev pub max_key_len : ℕ
max_key_len = 255

abbrev pub max_value_len : ℕ
max_value_len = 2 ^ 32 - 1

pub record Entry : Type 0 where
  pub key : List ℕ
  pub ttl_nanos : ℤ
  pub timestamp_nanos : ℤ
  pub last_access_nanos : ℤ
  pub value : List ℕ

unfoldable pub encoded_len : Entry → ℕ
encoded_len e = header_overhead + length e.key + length e.value

-- `ttl_nanos != 0`
abbrev is_zero : ℤ → Bool
is_zero (pos n) = n == 0
is_zero (negsuc n) = false

-- `ttl_nanos != NO_TTL && now_nanos >= ttl_nanos`
unfoldable pub is_expired : Entry → ℤ → Bool
is_expired e now_nanos = not (is_zero e.ttl_nanos) && leb_ℤ e.ttl_nanos now_nanos

-- The bytes that `encode_into` appends, when the lengths fit.
unfoldable pub encoded : Entry → List ℕ
encoded e =
    length e.key ∷ e.key
    ++ (to_le_bytes 8 (to_u64 e.ttl_nanos)
        ++ (to_le_bytes 8 (to_u64 e.timestamp_nanos)
            ++ (to_le_bytes 8 (to_u64 e.last_access_nanos)
                ++ (to_le_bytes 4 (length e.value) ++ e.value))))

-- The result is the buffer after the call.
unfoldable pub encode_into : Entry → List ℕ → Result (List ℕ)
unfolding encoded
encode_into e buf =
    if ltb max_key_len (length e.key)
    then err (key_too_large (length e.key) max_key_len)
    else if ltb max_value_len (length e.value)
    then err (value_too_large (length e.value) max_value_len)
    else ok (buf ++ encoded e)

-- `read_8` and `read_4`: the conversion of a slice to an array of `n` bytes
unfoldable pub read : ℕ → List ℕ → Result (List ℕ)
read n s = if length s == n then ok s else err (corruption (expected_bytes n))

-- The part of `decode` after the length of the header is known to fit. The ranges of the slices
-- lie within the buffer by the test before it.
unfoldable pub decode_fields : ℕ → List ℕ → Result (Entry × ℕ)
unfolding read
decode_fields key_len buf = do
  let key = slice 1 key_len buf
  ttl ← read 8 (slice (1 + key_len) 8 buf)
  timestamp ← read 8 (slice (9 + key_len) 8 buf)
  last_access ← read 8 (slice (17 + key_len) 8 buf)
  val_bytes ← read 4 (slice (25 + key_len) 4 buf)
  let val_len = from_le_bytes val_bytes
  let total = 29 + key_len + val_len
  if ltb max_value_len val_len
      then err (corruption (value_length val_len))
      else if ltb (length buf) total
      then err (truncated (total - length buf))
      else ok (
        record {
          key = key;
          ttl_nanos = from_u64 (from_le_bytes ttl);
          timestamp_nanos = from_u64 (from_le_bytes timestamp);
          last_access_nanos = from_u64 (from_le_bytes last_access);
          value = slice (29 + key_len) val_len buf;
        },
        total,
      )

-- The entry at the start of the buffer, and the number of bytes it takes.
unfoldable pub decode : List ℕ → Result (Entry × ℕ)
unfolding decode_fields
decode [] = err (truncated 1)
decode (key_len ∷ rest) =
    let header_end = 29 + key_len in
    if ltb (length (key_len ∷ rest)) header_end
    then err (truncated (header_end - length (key_len ∷ rest)))
    else decode_fields key_len (key_len ∷ rest)

-- What `encode_into` asks of the lengths, and the types of the time stamps.
pub record IsEncodable (e : Entry) : Type 0 where
  pub key_fits : length e.key ≤ max_key_len
  pub value_fits : length e.value ≤ max_value_len
  pub ttl_i64 : InI64 e.ttl_nanos
  pub timestamp_i64 : InI64 e.timestamp_nanos
  pub last_access_i64 : InI64 e.last_access_nanos
