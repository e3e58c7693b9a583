-- ===== src/ProtocolHelper/HostOrder.antt =====
-- `readLEInt16`, whose variable is wider than its number.
use asabru_commons.Base.{ℕ, ◌%◌, ◌^◌, ◌<◌, ◌≡◌, ap, ◌++◌, Bytes, length, ok, arith}
use asabru_commons.Base.Int.{pos}
use asabru_commons.ProtocolHelper.{read_le_int16}
use asabru_commons.ProtocolHelper.Endian.{
  little_endian, big_endian, value, digits, load, bswap, letoh,
}
use asabru_commons.ProtocolHelper.RoundTrip.{fetch-at}

-- `readLEInt16` gives back a number from its digits on a host of the order of the wire, and 0 on the
-- other.
pub read_le_int16-digits :
    (a rest : Bytes) (x : ℕ)
    → length a < 2 ^ 31
    → (read_le_int16 little_endian (a ++ (digits 2 x ++ rest)) (pos (length a)) ≡ ok (x % 2 ^ 16))
      × (read_le_int16 big_endian (a ++ (digits 2 x ++ rest)) (pos (length a)) ≡ ok 0)
unfolding read_le_int16 digits load letoh value bswap
read_le_int16-digits a rest x small = (
  rw (fetch-at a rest small 4 (digits 2 x) (omega arith) (omega arith)) (ap ok (omega arith)),
  rw (fetch-at a rest small 4 (digits 2 x) (omega arith) (omega arith)) (ap ok (omega arith)),
)
