-- ===== src/Network/TcpClient.antt =====
-- src/logger/util/TcpClient.h and src/util/network_utils.h: the client of the network logger. The
-- calls of the system are a parameter.
use asabru_commons.Base.{
  ℕ, Bool, ◌&&◌, ◌||◌, Option, none, some, [], ◌∷◌, Bytes, codes, replicate, leb, if◌then◌else◌,
  Outcome, ok, err, runtime_error, exit_failure, require, ◌>>=◌, ◌>>◌,
}
use asabru_commons.Base.Int.{ℤ, pos, is_zero, is_minus_one}
use asabru_commons.Strings.Memory.{c_str, c_text, strcpy}
use asabru_commons.ProtocolHelper.Endian.{ByteOrder}
use asabru_commons.Authorization.AfcasClient.{stoi}
use asabru_commons.Network.Sockets.{htons}

-- The fields of `struct hostent` that are read.
pub record Hostent : Type 0 where
  pub h_name : Option Bytes
  pub h_addr : Bytes

-- `malloc`, `inet_pton`, `gethostbyname`, `socket`, `connect` with the address and the port, `close`
-- and `send`.
pub record NetSystem (W : Type 0) : Type 0 where
  pub host_order : ByteOrder
  pub allocates : Bool
  pub inet_pton : Bytes → Option Bytes
  pub gethostbyname : Bytes → W → Option Hostent × W
  pub socket : W → ℤ × W
  pub connect : ℤ → Bytes → ℕ → W → ℤ × W
  pub close : ℤ → W → W
  pub send : ℤ → Bytes → W → ℤ × W

pub record TcpClient : Type 0 where
  pub server_name : Bytes
  pub server_port : ℤ
  pub host_pointer : Option Hostent
  pub s : ℤ

-- `isalpha` in the C locale, and `host[0]`.
unfoldable pub is_alpha : ℕ → Bool
is_alpha c = (leb b'A' c && leb c b'Z') || (leb b'a' c && leb c b'z')

abbrev pub first_char : Bytes → ℕ
first_char [] = 0
first_char (c ∷ s) = c

abbrev pub or_fail {ℓ} : {A : Type ℓ} → Option A → Outcome A
or_fail none = err exit_failure
or_fail (some a) = ok a

abbrev pub or_throw {ℓ} : {A : Type ℓ} → Option A → Outcome A
or_throw none = err runtime_error
or_throw (some a) = ok a

module _ {W : Type 0} (net : NetSystem W) where
  open net use {host_order, allocates, inet_pton, gethostbyname, socket, connect, close, send}

  unfoldable pub create_hostent : Bytes → Outcome Hostent
  create_hostent ip_address = do
    require allocates exit_failure
    address ← or_fail (inet_pton ip_address)
    ok (record { h_name = none; h_addr = address })

  unfoldable pub create_socket : TcpClient → W → Outcome (TcpClient × W)
  create_socket c w =
      let (s, w') = socket w in
      if is_minus_one s then err runtime_error else ok (record c { s = s }, w')

  -- A name is looked up, and an address converted.
  unfoldable pub resolve : Bytes → TcpClient → W → Outcome (TcpClient × W)
  resolve host c w =
      if is_alpha (first_char host)
      then (let (found, w') = gethostbyname host w in
          or_throw found >>= λ h. ok (record c { host_pointer = some h }, w'))
      else (create_hostent host >>= λ h. ok (record c { host_pointer = some h }, w))

  -- `connect` of the socket to the address that was found.
  unfoldable pub connect_to : TcpClient → W → Outcome (TcpClient × W)
  connect_to c w = do
    h ← or_throw c.host_pointer
    let (result, w') = connect c.s h.h_addr (htons host_order c.server_port) w
    require (is_zero result) runtime_error
    ok (c, w')

  unfoldable pub connect_client : TcpClient → W → Outcome (TcpClient × W)
  connect_client c w = do host ← c_text c.server_name; (c', w') ← resolve host c w; connect_to c' w'

  unfoldable pub tcp_client : Bytes → ℤ → W → Outcome (TcpClient × W)
  tcp_client server_name client_port w = do
    text ← c_text (c_str server_name)
    name ← strcpy (replicate 255 0) text
    (c, w1) ←
        create_socket
          (record { server_name = name; server_port = client_port; host_pointer = none; s = pos 0 })
          w
    connect_client c w1

  -- `CloseSocket` of src/util/ThreadUtils.cpp, in the build for POSIX.
  abbrev pub close_socket : ℤ → W → ℤ × W
  close_socket s w = (pos 0, close s w)

  unfoldable pub reconnect : TcpClient → W → Outcome (TcpClient × W)
  reconnect c w = do (c', w') ← create_socket c (close_socket c.s w).1; connect_client c' w'

  -- After a failed `send` the client connects again; the message is not sent again.
  unfoldable pub send_tcp_message : Bytes → TcpClient → W → Outcome (TcpClient × W)
  send_tcp_message content c w =
      let (bytes_sent, w') = send c.s content w in
      if is_minus_one bytes_sent then reconnect c w' else ok (c, w')

  -- The constructor of `NetworkContentWriter`, with the environment variables
  -- `NETWORK_LOGGER_HOST` and `NETWORK_LOGGER_PORT`.
  unfoldable pub network_client : Option Bytes → Option Bytes → W → Outcome (TcpClient × W)
  network_client host port w = do
    port_number ← elim port [ none ↦ ok (pos 5_170) | some text ↦ stoi text ]
    tcp_client (elim host [ none ↦ codes "127.0.0.1" | some name ↦ name ]) port_number w
