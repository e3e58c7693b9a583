-- ===== src/ProtocolHelper/Examples.antt =====
-- Packets read.
use asabru_commons.Base.{
  ◌≡◌, refl, [], ◌∷◌, ◌++◌, Bytes, ok, err, out_of_range, undefined_behaviour, codes, arith,
  reverse,
}
use asabru_commons.Base.Int.{pos, negsuc, to_size}
use asabru_commons.Strings.{substr}
use asabru_commons.Strings.Memory.{memcpy}
use asabru_commons.ProtocolHelper.{
  fetch, read_int32, read_c_string, read_byte, read_le_int16, read_le_int24, read_le_int64,
  read_be_int16, read_be_int32, read_be_int64,
}
use asabru_commons.ProtocolHelper.Endian.{
  little_endian, big_endian, digits, value, bswap, load, letoh, betoh,
}
use asabru_commons.ProtocolHelper.RoundTrip.{read-digits}
use asabru_commons.ProtocolHelper.Limits.{end_of, expected_end, read-end}

abbrev packet : Bytes
packet = 7 ∷ 1 ∷ 2 ∷ 3 ∷ 4 ∷ 104 ∷ 105 ∷ 0 ∷ 9 ∷ []

little : read_int32 big_endian packet (pos 1) (pos 4) ≡ ok 0x0403_0201
unfolding read_int32 fetch substr memcpy to_size letoh bswap value digits load
little = refl

big : read_be_int32 little_endian packet (pos 1) ≡ ok 0x0102_0304
unfolding read_be_int32 fetch substr memcpy to_size betoh bswap value digits load
big = refl

three : read_le_int24 little_endian packet (pos 1) ≡ ok 0x03_0201
unfolding read_le_int24 substr memcpy to_size letoh load value
three = refl

behind_the_end : read_be_int16 little_endian packet (pos 10) ≡ err out_of_range
unfolding read_be_int16 fetch substr to_size
behind_the_end = refl

negative_start : read_be_int16 little_endian packet (negsuc 0) ≡ err out_of_range
unfolding read_be_int16 fetch substr to_size
negative_start = refl

two_bytes_short : read_le_int64 little_endian packet (pos 3) ≡ err undefined_behaviour
unfolding read_le_int64 fetch substr memcpy to_size
two_bytes_short = refl

hi : read_c_string packet (pos 5) ≡ ok (codes "hi")
unfolding read_c_string to_size
hi = refl

first : read_byte packet (pos 0) ≡ ok 7
unfolding read_byte to_size
first = refl

abbrev front : Bytes
front = 7 ∷ 1 ∷ []

read-digits_example :
    (read_int32 big_endian (front ++ (digits 4 0x0102_0304 ++ front)) (pos 2) (pos 4)
      ≡ ok 0x0102_0304)
    × (read_le_int24 big_endian (front ++ (digits 3 0x0102_0304 ++ front)) (pos 2) ≡ ok 0x02_0304)
    × (read_le_int64 big_endian (front ++ (digits 8 0x0102_0304 ++ front)) (pos 2) ≡ ok 0x0102_0304)
    × (read_be_int16 big_endian (front ++ (reverse (digits 2 0x0102_0304) ++ front)) (pos 2)
        ≡ ok 0x0304)
    × (read_be_int32 big_endian (front ++ (reverse (digits 4 0x0102_0304) ++ front)) (pos 2)
        ≡ ok 0x0102_0304)
    × (read_be_int64 big_endian (front ++ (reverse (digits 8 0x0102_0304) ++ front)) (pos 2)
        ≡ ok 0x0102_0304)
read-digits_example = read-digits front front (omega arith) big_endian 0x0102_0304

read-end_example :
    (end_of (read_int32 big_endian packet (pos 6) (pos 4)) ≡ expected_end 4 packet 6)
    × (end_of (read_le_int16 big_endian packet (pos 6)) ≡ expected_end 2 packet 6)
    × (end_of (read_le_int24 big_endian packet (pos 6)) ≡ expected_end 3 packet 6)
    × (end_of (read_le_int64 big_endian packet (pos 6)) ≡ expected_end 8 packet 6)
    × (end_of (read_be_int16 big_endian packet (pos 6)) ≡ expected_end 2 packet 6)
    × (end_of (read_be_int32 big_endian packet (pos 6)) ≡ expected_end 4 packet 6)
    × (end_of (read_be_int64 big_endian packet (pos 6)) ≡ expected_end 8 packet 6)
read-end_example = read-end big_endian packet 6 (omega arith)
