-- ===== src/ProtocolHelper/Endian.antt =====
-- src/util/endian_utils.h: the conversions between the byte order of the wire and that of the host.
use asabru_commons.Base.{ℕ, zero, suc, ◌+◌, ◌*◌, ◌/◌, ◌%◌, [], ◌∷◌, Bytes, reverse}

-- `BYTE_ORDER`.
pub data ByteOrder : Type 0 where
  little_endian big_endian : ByteOrder

-- The number that bytes stand for, the lowest first.
unfoldable pub value : Bytes → ℕ
value [] = 0
value (b ∷ bs) = b + 256 * value bs

-- The lowest `n` bytes of a number, the lowest first.
unfoldable pub digits : ℕ → ℕ → Bytes
digits zero x = []
digits (suc n) x = x % 256 ∷ digits n (x / 256)

-- The number that a variable holds whose memory is `bytes`.
unfoldable pub load : ByteOrder → Bytes → ℕ
load little_endian bytes = value bytes
load big_endian bytes = value (reverse bytes)

-- `__builtin_bswap16`, `__builtin_bswap32` and `__builtin_bswap64` by their number of bytes; the
-- argument is converted to that size.
unfoldable pub bswap : ℕ → ℕ → ℕ
bswap width x = value (reverse (digits width x))

-- `le16toh`, `le32toh` and `le64toh`.
unfoldable pub letoh : ByteOrder → ℕ → ℕ → ℕ
letoh little_endian width x = x
letoh big_endian width x = bswap width x

-- `be16toh`, `be32toh` and `be64toh`.
unfoldable pub betoh : ByteOrder → ℕ → ℕ → ℕ
betoh little_endian width x = bswap width x
betoh big_endian width x = x
