-- ===== src/Network/Connected.antt =====
-- What holds of a client between its messages.
use asabru_commons.Base.{
  ◌≡◌, refl, ap, ◌∙◌, subst, Bool, true, false, Option, none, some, List, [], ◌∷◌, Bytes, Outcome,
  ok, runtime_error, exit_failure, require, ◌>>=◌, >>=-eq-ok, arith, Bool-cases, ◌⊎◌, inl, inr,
  zero, suc,
}
use asabru_commons.Base.Int.{ℤ, pos, negsuc, is_zero, is_minus_one}
use asabru_commons.Strings.Memory.{c_text}
use asabru_commons.Network.Sockets.{htons}
use asabru_commons.Network.TcpClient.{
  Hostent, NetSystem, TcpClient, is_alpha, first_char, or_fail, or_throw, create_hostent,
  create_socket, resolve, connect_to, connect_client, reconnect, send_tcp_message,
}

is_zero-eq : (n : ℤ) → is_zero n ≡ true → n ≡ pos 0
is_zero-eq (pos zero) e = refl
is_zero-eq (pos (suc n)) e = absurd (cc)
is_zero-eq (negsuc n) e = absurd (cc)

require-true : (b : Bool) → require b runtime_error ≡ ok tt → b ≡ true
require-true true e = refl
require-true false e = absurd (cc)

or_throw-some {ℓ} : {A : Type ℓ} (o : Option A) {a : A} → or_throw o ≡ ok a → o ≡ some a
or_throw-some none e = absurd (cc)
or_throw-some (some b) e = cc

or_fail-some {ℓ} : {A : Type ℓ} (o : Option A) {a : A} → or_fail o ≡ ok a → o ≡ some a
or_fail-some none e = absurd (cc)
or_fail-some (some b) e = cc

module _ {W : Type 0} (net : NetSystem W) where
  -- What the system found for a host: by its name, or by its address in text form.
  abbrev pub IsFound : Bytes → Hostent → Type 0
  IsFound host h =
      ((is_alpha (first_char host) ≡ true) × ((w : W) × ((net.gethostbyname host w).0 ≡ some h)))
      ⊎ ((is_alpha (first_char host) ≡ false) × (net.inet_pton host ≡ some h.h_addr))

  -- The client is for a host and a port.
  abbrev pub IsFor : Bytes → ℤ → TcpClient → Type 0
  IsFor host port c = (c_text c.server_name ≡ ok host) × (c.server_port ≡ port)

  -- The socket is one that the system gave, and its connection to the port and the address that was
  -- found for the host succeeded.
  abbrev pub IsConnected : Bytes → ℤ → TcpClient → Type 0
  IsConnected host port c =
      IsFor host port c
      × (is_minus_one c.s ≡ false)
      × ((h : Hostent) × (before after : W) × (c.host_pointer ≡ some h)
          × IsFound host h
          × (net.connect c.s h.h_addr (htons net.host_order port) before ≡ (pos 0, after)))

  connect_to-IsConnected :
      (host : Bytes) (port : ℤ) (c : TcpClient) (w : W) {c' : TcpClient} {w' : W}
      → IsFor host port c
      → ((h : Hostent) → c.host_pointer ≡ some h → IsFound host h)
      → is_minus_one c.s ≡ false
      → connect_to net c w ≡ ok (c', w')
      → IsConnected host port c'
  unfolding connect_to
  connect_to-IsConnected host port c w {c'} {w'} for known open_s e =
      let (h, found, e1) = >>=-eq-ok (or_throw c.host_pointer) _ e in
      let r = net.connect c.s h.h_addr (htons net.host_order c.server_port) w in
      let (u, accepted, e2) = >>=-eq-ok (require (is_zero r.0) runtime_error) _ e1 in
      let zero_result : r.0 ≡ pos 0 = is_zero-eq r.0 (require-true (is_zero r.0) accepted) in
      let same : c ≡ c' = cc in
      let pointer : c.host_pointer ≡ some h = or_throw-some c.host_pointer found in
      let made : net.connect c.s h.h_addr (htons net.host_order port) w ≡ (pos 0, r.1) =
        rw (← for.1) (ap (λ n. (n, r.1)) zero_result) in
      subst (IsConnected host port) same (for, open_s, (h, w, r.1, pointer, known h pointer, made))

  create_socket-kept :
      (host : Bytes) (port : ℤ) (c : TcpClient) (w : W) {c' : TcpClient} {w' : W}
      → IsFor host port c
      → create_socket net c w ≡ ok (c', w')
      → IsFor host port c' × (is_minus_one c'.s ≡ false)
  unfolding create_socket
  create_socket-kept host port c w for e = ((ground arith, ground arith), ground arith)

  resolve-kept :
      (host : Bytes) (port : ℤ) (c : TcpClient) (w : W) {c' : TcpClient} {w' : W}
      → IsFor host port c
      → resolve net host c w ≡ ok (c', w')
      → IsFor host port c' × (c'.s ≡ c.s)
  unfolding resolve
  resolve-kept host port c w for e = ((ground arith, ground arith), ground arith)

  -- What `resolve` puts into the client was found for the host.
  resolve-IsFound :
      (host : Bytes) (c : TcpClient) (w : W) {c' : TcpClient} {w' : W}
      → resolve net host c w ≡ ok (c', w')
      → (h : Hostent) → c'.host_pointer ≡ some h
      → IsFound host h
  unfolding resolve create_hostent
  resolve-IsFound host c w {c'} {w'} e h pointer = elim (Bool-cases (is_alpha (first_char host))) [
    | inl name ↦
        let (g, found, e1) = >>=-eq-ok (or_throw (net.gethostbyname host w).0) _ (rw name at e) in
        let same : g ≡ h = cc in
        inl (name, (w, rw (← same) (or_throw-some (net.gethostbyname host w).0 found)))
    | inr address ↦
        let (g, made, e1) = >>=-eq-ok (create_hostent net host) _ (rw address at e) in
        let (u, ready, e2) = >>=-eq-ok (require net.allocates exit_failure) _ made in
        let (bytes, found, e3) = >>=-eq-ok (or_fail (net.inet_pton host)) _ e2 in
        let same : g ≡ h = cc in
        let addr : bytes ≡ g.h_addr = cc in
        inr (address, rw (← same, ← addr) (or_fail-some (net.inet_pton host) found))
  ]

  connect_client-IsConnected :
      (host : Bytes) (port : ℤ) (c : TcpClient) (w : W) {c' : TcpClient} {w' : W}
      → IsFor host port c
      → is_minus_one c.s ≡ false
      → connect_client net c w ≡ ok (c', w')
      → IsConnected host port c'
  unfolding connect_client
  connect_client-IsConnected host port c w for open_s e =
      let (name, read, e1) = >>=-eq-ok (c_text c.server_name) _ e in
      let same : name ≡ host = cc in
      let (r, resolved, e2) = >>=-eq-ok (resolve net name c w) _ e1 in
      let resolved' : resolve net host c w ≡ ok r = rw same at resolved in
      let (for', s) = resolve-kept host port c w for resolved' in
      connect_to-IsConnected host port r.0 r.1 for' (resolve-IsFound host c w resolved')
        (ap is_minus_one s ∙ open_s) e2

  opened-IsConnected :
      (host : Bytes) (port : ℤ) (c : TcpClient) (w : W) {c' : TcpClient} {w' : W}
      → IsFor host port c
      → (create_socket net c w >>= λ r. connect_client net r.0 r.1) ≡ ok (c', w')
      → IsConnected host port c'
  opened-IsConnected host port c w for e =
      let (r, opened, e1) = >>=-eq-ok (create_socket net c w) _ e in
      let (for', open_s) = create_socket-kept host port c w for opened in
      connect_client-IsConnected host port r.0 r.1 for' open_s e1

  send_tcp_message-IsConnected :
      (host : Bytes) (port : ℤ) (content : Bytes) (c : TcpClient) (w : W) {c' : TcpClient} {w' : W}
      → IsConnected host port c
      → send_tcp_message net content c w ≡ ok (c', w')
      → IsConnected host port c'
  unfolding send_tcp_message reconnect
  send_tcp_message-IsConnected host port content c w {c'} {w'} h e =
      elim (Bool-cases (is_minus_one (net.send c.s content w).0)) [
        | inl failed ↦
            opened-IsConnected host port c (net.close c.s (net.send c.s content w).1) h.0
              (rw failed at e)
        | inr sent ↦ let same : c ≡ c' = ground arith in subst (IsConnected host port) same h
      ]

  -- The messages of a client, one after the other.
  unfoldable pub send_all : List Bytes → TcpClient → W → Outcome (TcpClient × W)
  send_all [] c w = ok (c, w)
  send_all (m ∷ ms) c w = send_tcp_message net m c w >>= λ r. send_all ms r.0 r.1

  pub send_all-IsConnected :
      (host : Bytes) (port : ℤ) (ms : List Bytes) (c : TcpClient) (w : W) {c' : TcpClient} {w' : W}
      → IsConnected host port c
      → send_all ms c w ≡ ok (c', w')
      → IsConnected host port c'
  unfolding send_all
  send_all-IsConnected host port [] c w {c'} h e =
      let same : c ≡ c' = cc in subst (IsConnected host port) same h
  send_all-IsConnected host port (m ∷ ms) c w h e =
      let (r, sent, e1) = >>=-eq-ok (send_tcp_message net m c w) _ e in
      send_all-IsConnected host port ms r.0 r.1
        (send_tcp_message-IsConnected host port m c w h sent) e1
