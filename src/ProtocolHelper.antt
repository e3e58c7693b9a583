-- ===== src/ProtocolHelper.antt =====
-- src/ProtocolHelper.h: the readers of integers and texts in a packet.
pub mod Bounds
pub mod Endian
mod Examples
pub mod HostOrder
pub mod Limits
pub mod RoundTrip
pub mod Swapped
pub mod Word
use asabru_commons.Base.{
  ℕ, zero, suc, ◌+◌, ◌-◌, ◌%◌, ◌^◌, Bool, [], ◌∷◌, ◌++◌, Bytes, length, drop, replicate, get_elem?,
  ltb, ◌==◌, if◌then◌else◌, Outcome, ok, err, undefined_behaviour, require, ◌>>=◌, ◌>>◌, Option,
  none, some,
}
use asabru_commons.Base.Int.{ℤ, pos, to_size}
use asabru_commons.Strings.{substr}
use asabru_commons.Strings.Memory.{c_str, memcpy}
use asabru_commons.ProtocolHelper.Endian.{ByteOrder, load, letoh, betoh}

-- The memory of an integer variable of `width` bytes that was 0, after `memcpy` of `length` bytes at
-- `start` of the buffer.
unfoldable pub fetch : ℕ → Bytes → ℤ → ℤ → Outcome Bytes
fetch width buffer start length = do
  packet_length_nw_bytes ← substr buffer (to_size start) (to_size length)
  memcpy (replicate width 0) (c_str packet_length_nw_bytes) (to_size length)

unfoldable pub read_int32 : ByteOrder → Bytes → ℤ → ℤ → Outcome ℕ
read_int32 host buffer start length = do
  packet_length_nw ← fetch 4 buffer start length
  ok (letoh host 4 (load host packet_length_nw))

-- The loop of `readCString` from index `i`, on the bytes from there on: the byte behind the last one
-- is null, and `i++` has to stay an `int`.
unfoldable pub name_from : ℕ → Bytes → Outcome Bytes
name_from i [] = ok []
name_from i (c ∷ s) =
    let rest = name_from (suc i) s in
    if c == 0
    then ok []
    else (require (ltb (suc i) (2 ^ 31)) undefined_behaviour >> (rest >>= λ name. ok (c ∷ name)))

-- An index behind the null byte at the end is undefined behaviour.
unfoldable pub read_c_string : Bytes → ℤ → Outcome Bytes
unfolding name_from
read_c_string buffer start =
    require (ltb (to_size start) (length buffer + 1)) undefined_behaviour
    >> name_from (to_size start) (drop (to_size start) buffer)

-- `buffer[i]`.
unfoldable pub char_at : Option ℕ → Outcome ℕ
char_at none = err undefined_behaviour
char_at (some c) = ok c

unfoldable pub read_byte : Bytes → ℤ → Outcome ℕ
unfolding char_at
read_byte buffer start = char_at (get_elem? (c_str buffer) (to_size start))

-- The variable has 4 bytes; the argument of `le16toh` and the result are converted to 16 bits.
unfoldable pub read_le_int16 : ByteOrder → Bytes → ℤ → Outcome ℕ
read_le_int16 host buffer start = do
  packet_length_nw ← fetch 4 buffer start (pos 2)
  ok (letoh host 2 (load host packet_length_nw) % 2 ^ 16)

-- A null byte is put behind the three bytes.
unfoldable pub read_le_int24 : ByteOrder → Bytes → ℤ → Outcome ℕ
read_le_int24 host buffer start = do
  packet_length_nw_bytes ← substr buffer (to_size start) 3
  packet_length_nw ← memcpy (replicate 4 0) (c_str (packet_length_nw_bytes ++ 0 ∷ [])) (3 + 1)
  ok (letoh host 4 (load host packet_length_nw))

unfoldable pub read_le_int64 : ByteOrder → Bytes → ℤ → Outcome ℕ
read_le_int64 host buffer start = do
  packet_length_nw ← fetch 8 buffer start (pos 8)
  ok (letoh host 8 (load host packet_length_nw))

unfoldable pub read_be_int16 : ByteOrder → Bytes → ℤ → Outcome ℕ
read_be_int16 host buffer start = do
  packet_length_nw ← fetch 2 buffer start (pos 2)
  ok (betoh host 2 (load host packet_length_nw))

unfoldable pub read_be_int32 : ByteOrder → Bytes → ℤ → Outcome ℕ
read_be_int32 host buffer start = do
  packet_length_nw ← fetch 4 buffer start (pos 4)
  ok (betoh host 4 (load host packet_length_nw))

unfoldable pub read_be_int64 : ByteOrder → Bytes → ℤ → Outcome ℕ
read_be_int64 host buffer start = do
  packet_length_nw ← fetch 8 buffer start (pos 8)
  ok (betoh host 8 (load host packet_length_nw))
