-- ===== src/Network/Examples.antt =====
-- Sockets of a system that records what it is asked.
use asabru_commons.Base.{
  ◌≡◌, refl, true, false, none, some, List, [], ◌∷◌, ◌++◌, codes, ℕ, length, replicate,
  if◌then◌else◌, ◌==◌,
}
use asabru_commons.Base.Int.{ℤ, pos, negsuc}
use asabru_commons.ProtocolHelper.Endian.{little_endian}
use asabru_commons.Network.Sockets.{SocketSystem, tcp_keepidle, set_keep_alive, write_socket_buffer}
use asabru_commons.Network.TcpClient.{NetSystem, TcpClient}

-- The numbers of bytes sent. A message of three bytes fails.
abbrev counting : NetSystem (List ℕ)
counting = record {
  host_order = little_endian;
  allocates = true;
  inet_pton = λ text. some (127 ∷ 0 ∷ 0 ∷ 1 ∷ []);
  gethostbyname = λ name w. (none, w);
  socket = λ w. (pos 5, w);
  connect = λ s addr port w. (pos 0, w);
  close = λ s w. w;
  send = λ s content w.
      if length content == 3
      then (negsuc 0, w)
      else (pos (length content), w ++ length content ∷ []);
}

abbrev localhost : TcpClient
localhost = record {
  server_name = codes "127.0.0.1" ++ replicate 246 0;
  server_port = pos 80;
  host_pointer = some (record { h_name = none; h_addr = 127 ∷ 0 ∷ 0 ∷ 1 ∷ [] });
  s = pos 5;
}

-- An option that is refused ends the call, and part of a buffer counts as sent.
abbrev refusing : SocketSystem (List ℤ)
refusing = record {
  setsockopt = λ s option n w. (elim option [ tcp_keepidle ↦ negsuc 0 | _ ↦ pos 0 ], w ++ n ∷ []);
  recv = λ s n w. ((pos 0, []), w);
  send = λ s b w. (pos 1, w);
}

refused : set_keep_alive refusing (pos 5) (pos 1) [] ≡ (false, pos 1 ∷ pos 75 ∷ [])
unfolding set_keep_alive
refused = refl

partly_sent : write_socket_buffer refusing (pos 5) (codes "hello") [] ≡ (true, [])
unfolding write_socket_buffer
partly_sent = refl
