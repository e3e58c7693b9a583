-- ===== src/Network/Port.antt =====
-- The port that is printed.
use asabru_commons.Base.{ℕ, ◌+◌, ◌*◌, ◌/◌, ◌%◌, ◌^◌, ◌<◌, ◌≡◌, ap, Bytes, arith}
use asabru_commons.Base.Int.{pos, to_size}
use asabru_commons.Strings.Decimal.{decimal}
use asabru_commons.ProtocolHelper.Endian.{little_endian, big_endian, betoh, bswap, value, digits}
use asabru_commons.Network.Sockets.{htons, get_ip_port_as_string}

-- `GetIPPortAsString` prints a port, stored as `connect` and `accept` store it, on a big-endian host;
-- on a little-endian one it prints the number with the two bytes exchanged.
pub get_ip_port_as_string-htons :
    (port : ℕ) (addr : Bytes)
    → port < 2 ^ 16
    → (get_ip_port_as_string (record { sin_port = htons big_endian (pos port); sin_addr = addr })
        ≡ decimal port)
      × (get_ip_port_as_string
            (record { sin_port = htons little_endian (pos port); sin_addr = addr })
          ≡ decimal (port % 256 * 256 + port / 256))
unfolding get_ip_port_as_string htons betoh bswap value digits to_size
get_ip_port_as_string-htons port addr h = (ap decimal (omega arith), ap decimal (omega arith))
