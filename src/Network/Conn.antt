-- ===== src/Network/Conn.antt =====
-- internal/network/conn.go: connections with a deadline for each read and write. The UDP connection
-- stands for one transaction: it remembers the peer whose datagram it read.
pub mod Transaction
use dotproxy.Base.{ℕ, ◌+◌, ◌≡◌, Bool, true, false, List, [], ◌∷◌, Option, none, some, if◌then◌else◌}
use dotproxy.Base.Int.{ℤ, pos, pos_part, ltb_ℤ}
use dotproxy.Base.Time.{Time, Duration}
use dotproxy.Network.World.{Bytes, Error, ReadResult, WriteResult}

-- The address of a peer.
abbrev pub Addr : Type 0
Addr = ℕ

-- What ReadFrom gives.
pub record Datagram : Type 0 where
  pub read : ReadResult
  pub from : Option Addr

-- What is asked of the socket, the latest first.
pub data Call : Type 0 where
  dial : Duration → Call
  handshake closing : Call
  deadline read_deadline write_deadline : Time → Call
  read_from : ℕ → Call
  write_to : Bytes → Addr → Call
  read : ℕ → Call
  write : Bytes → Call

abbrev pub Calls : Type 0
Calls = List Call

-- The answers of net.PacketConn, of net.Conn, of the dialer under a timeout and of the TLS handshake,
-- and the clock.
pub record Socket : Type 0 where
  pub clock : Calls → Time
  pub dial : Calls → Duration → Option Error
  pub handshake : Calls → Option Error
  pub set_deadline : Calls → Call → Option Error
  pub read_from : Calls → ℕ → Datagram
  pub write_to : Calls → Bytes → Addr → WriteResult
  pub read : Calls → ℕ → ReadResult
  pub write : Calls → Bytes → WriteResult
  pub close : Calls → Option Error
  pub local_addr : Addr

pub record UdpConn : Type 0 where
  pub read_timeout : Duration
  pub write_timeout : Duration
  pub remote : Option Addr

pub record TcpConn : Type 0 where
  pub read_timeout : Duration
  pub write_timeout : Duration

abbrev pub new_udp_conn : Duration → Duration → UdpConn
new_udp_conn read_timeout write_timeout = record {
  read_timeout = read_timeout;
  write_timeout = write_timeout;
  remote = none;
}

abbrev pub new_tcp_conn : Duration → Duration → TcpConn
new_tcp_conn read_timeout write_timeout = record {
  read_timeout = read_timeout;
  write_timeout = write_timeout;
}

abbrev pub already_associated : Error
already_associated = Error.io 1

abbrev pub no_remote : Error
no_remote = Error.io 2

abbrev pub no_bytes : Error → ReadResult
no_bytes e = record { bytes = []; error = some e }

abbrev pub none_written : Error → WriteResult
none_written e = record { count = 0; error = some e }

module _ (socket : Socket) where
  -- `if timeout > 0 { … SetReadDeadline(time.Now().Add(timeout)) … }`, or the like of Write: the error,
  -- and the calls.
  unfoldable pub with_deadline : (Time → Call) → Duration → Calls → Option Error × Calls
  with_deadline call timeout w =
      let set = call (socket.clock w + pos_part timeout) in
      if ltb_ℤ (pos 0) timeout then (socket.set_deadline w set, set ∷ w) else (none, w)

  unfoldable pub udp_read : UdpConn → ℕ → Calls → (UdpConn × ReadResult) × Calls
  udp_read c n w = elim c.remote [
    | some peer ↦ ((c, no_bytes already_associated), w)
    | none ↦
        let ready = with_deadline read_deadline c.read_timeout w in
        elim ready.0 [
          | some e ↦ ((c, no_bytes e), ready.1)
          | none ↦
              let d = socket.read_from ready.1 n in
              ((record c { remote = d.from }, d.read), Call.read_from n ∷ ready.1)
        ]
  ]

  unfoldable pub udp_write : UdpConn → Bytes → Calls → WriteResult × Calls
  udp_write c bs w = elim c.remote [
    | none ↦ (none_written no_remote, w)
    | some peer ↦
        let ready = with_deadline write_deadline c.write_timeout w in
        elim ready.0 [
          | some e ↦ (none_written e, ready.1)
          | none ↦ (socket.write_to ready.1 bs peer, Call.write_to bs peer ∷ ready.1)
        ]
  ]

  unfoldable pub tcp_read : TcpConn → ℕ → Calls → ReadResult × Calls
  tcp_read c n w =
      let ready = with_deadline read_deadline c.read_timeout w in
      elim ready.0 [
        | some e ↦ (no_bytes e, ready.1)
        | none ↦ (socket.read ready.1 n, Call.read n ∷ ready.1)
      ]

  unfoldable pub tcp_write : TcpConn → Bytes → Calls → WriteResult × Calls
  tcp_write c bs w =
      let ready = with_deadline write_deadline c.write_timeout w in
      elim ready.0 [
        | some e ↦ (none_written e, ready.1)
        | none ↦ (socket.write ready.1 bs, Call.write bs ∷ ready.1)
      ]

  -- The other methods of UDPConn pass the call on to the socket that its connections share.
  unfoldable pub udp_close : UdpConn → Calls → Option Error × Calls
  udp_close c w = (socket.close w, closing ∷ w)

  abbrev pub udp_local_addr : UdpConn → Addr
  udp_local_addr c = socket.local_addr

  abbrev pub udp_remote_addr : UdpConn → Option Addr
  udp_remote_addr c = c.remote

  unfoldable pub udp_set_deadline : UdpConn → Time → Calls → Option Error × Calls
  udp_set_deadline c t w = (socket.set_deadline w (deadline t), deadline t ∷ w)

  unfoldable pub udp_set_read_deadline : UdpConn → Time → Calls → Option Error × Calls
  udp_set_read_deadline c t w = (socket.set_deadline w (read_deadline t), read_deadline t ∷ w)

  unfoldable pub udp_set_write_deadline : UdpConn → Time → Calls → Option Error × Calls
  udp_set_write_deadline c t w = (socket.set_deadline w (write_deadline t), write_deadline t ∷ w)
