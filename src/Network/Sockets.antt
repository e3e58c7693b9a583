-- ===== src/Network/Sockets.antt =====
-- src/ProtocolHelper.cpp: the options of a socket, its buffers and the address of its peer. The calls
-- of the system are a parameter.
use asabru_commons.Base.{ℕ, ◌^◌, ◌%◌, Bool, true, false, ◌||◌, Bytes, if◌then◌else◌}
use asabru_commons.Base.Int.{ℤ, pos, is_zero, is_minus_one, to_size}
use asabru_commons.Strings.Decimal.{decimal}
use asabru_commons.ProtocolHelper.Endian.{ByteOrder, betoh}

pub data SocketOption : Type 0 where
  so_rcvtimeo so_keepalive tcp_keepidle tcp_keepintvl : SocketOption

-- `setsockopt` with its value, `recv` with its result and the bytes that it puts into the buffer, and
-- `send`.
pub record SocketSystem (W : Type 0) : Type 0 where
  pub setsockopt : ℤ → SocketOption → ℤ → W → ℤ × W
  pub recv : ℤ → ℤ → W → (ℤ × Bytes) × W
  pub send : ℤ → Bytes → W → ℤ × W

-- `CHISTA_TCP_KEEPINTVL`.
abbrev pub keep_interval : ℤ
keep_interval = pos 75

-- The rest of a function that returns `false` when an option is refused.
abbrev pub unless_refused {ℓ} : {W : Type ℓ} → ℤ × W → (W → Bool × W) → Bool × W
unless_refused (result, w) rest =
    let more = rest w in if is_minus_one result then (false, w) else more

-- `RetVal == 0 || RetVal == -1`.
abbrev pub is_no_count : ℤ → Bool
is_no_count n = is_zero n || is_minus_one n

module _ {W : Type 0} (system : SocketSystem W) where
  open system use {setsockopt, recv, send}

  unfoldable pub set_read_time_out : ℤ → ℤ → W → Bool × W
  set_read_time_out s second w =
      unless_refused (setsockopt s so_rcvtimeo second w) (λ w1. (true, w1))

  -- Where the system has `TCP_KEEPIDLE`.
  unfoldable pub set_keep_alive : ℤ → ℤ → W → Bool × W
  set_keep_alive s flags w = unless_refused (setsockopt s so_keepalive flags w) (λ w1.
      unless_refused (setsockopt s tcp_keepidle keep_interval w1)
        (λ w2. unless_refused (setsockopt s tcp_keepintvl keep_interval w2) (λ w3. (true, w3))))

  -- Whether something was read, `*num_read`, and the bytes.
  unfoldable pub read_socket_buffer : ℤ → ℤ → W → (Bool × ℤ × Bytes) × W
  read_socket_buffer s size w =
      let ((n, bytes), w') = recv s size w in
      ((if is_no_count n then false else true, n, bytes), w')

  -- The overload without `num_read`.
  unfoldable pub read_socket_buffer_only : ℤ → ℤ → W → (Bool × Bytes) × W
  read_socket_buffer_only s size w =
      let ((n, bytes), w') = recv s size w in ((if is_no_count n then false else true, bytes), w')

  unfoldable pub write_socket_buffer : ℤ → Bytes → W → Bool × W
  write_socket_buffer s bfr w =
      let (n, w') = send s bfr w in (if is_no_count n then false else true, w')

-- The address and the port of `struct sockaddr_in`, as they stand in memory.
pub record SocketAddress : Type 0 where
  pub sin_port : ℕ
  pub sin_addr : Bytes

-- `inet_ntop` is an argument.
unfoldable pub get_ip_address_as_string : (Bytes → Bytes) → SocketAddress → Bytes
get_ip_address_as_string inet_ntop a = inet_ntop a.sin_addr

unfoldable pub get_ip_port_as_string : SocketAddress → Bytes
get_ip_port_as_string a = decimal a.sin_port

-- `htons(port)`, of a port that is converted to 16 bits.
unfoldable pub htons : ByteOrder → ℤ → ℕ
htons host port = betoh host 2 (to_size port % 2 ^ 16)
