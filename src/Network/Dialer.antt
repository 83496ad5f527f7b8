-- ===== src/Network/Dialer.antt =====
-- internal/network/client.go: how a TLS client opens a connection, the function tlsDialer of NewTLSClient.
-- The TCP dialer and the TLS connection are libraries': a TLS connection passes its deadlines on to the
-- TCP connection below it, so both are one socket here.
pub mod Deadline
use dotproxy.Base.{ℕ, ◌+◌, [], ◌∷◌, Option, none, some, if◌then◌else◌}
use Prim.Native.String.{String}
use dotproxy.Base.Int.{ℤ, pos, pos_part, ltb_ℤ}
use dotproxy.Base.Time.{Duration}
use dotproxy.Network.World.{Error, Outcome, done, fail}
use dotproxy.Network.Pool.{PoolOpts}
use dotproxy.Network.Conn.{Call, Calls, Socket, TcpConn, new_tcp_conn}

pub record TlsClientOpts : Type 0 where
  pub pool_opts : PoolOpts
  pub connect_timeout : Duration
  pub handshake_timeout : Duration
  pub read_timeout : Duration
  pub write_timeout : Duration

-- net.Dialer: its timeout, and the TCP option, with its value, that it sets on a socket.
pub record NetDialer : Type 0 where
  pub timeout : Duration
  pub tcp_option : ℕ × ℕ

-- tls.Config: the name of the server, and the capacity of the cache of sessions.
pub record TlsConfig : Type 0 where
  pub server_name : String
  pub session_cache : ℤ

abbrev pub tcp_fast_open_connect : ℕ
tcp_fast_open_connect = 30

abbrev pub new_net_dialer : TlsClientOpts → NetDialer
new_net_dialer opts = record {
  timeout = opts.connect_timeout;
  tcp_option = (tcp_fast_open_connect, 1);
}

abbrev pub new_tls_config : String → TlsClientOpts → TlsConfig
new_tls_config server_name opts = record {
  server_name = server_name;
  session_cache = opts.pool_opts.capacity;
}

module _ (socket : Socket) where
  -- `if opts.HandshakeTimeout > 0 { conn.SetDeadline(…) }`, whose error is dropped.
  abbrev pub arm : Duration → Calls → Calls
  arm timeout w =
      if ltb_ℤ (pos 0) timeout then Call.deadline (socket.clock w + pos_part timeout) ∷ w else w

  -- The handshake of a new connection; when it fails, `go conn.Close()`.
  unfoldable pub shake : TlsClientOpts → Calls → Outcome TcpConn × Calls
  shake opts w = elim (socket.handshake w) [
    | some e ↦ (fail Error.handshake_failed, Call.closing ∷ Call.handshake ∷ w)
    | none ↦ (done (new_tcp_conn opts.read_timeout opts.write_timeout), Call.handshake ∷ w)
  ]

  unfoldable pub tls_dialer : TlsClientOpts → Calls → Outcome TcpConn × Calls
  tls_dialer opts w =
      let dialer = new_net_dialer opts in
      let dialed = Call.dial dialer.timeout ∷ w in
      elim (socket.dial w dialer.timeout) [
        | some e ↦ (fail Error.connect_failed, dialed)
        | none ↦ shake opts (arm opts.handshake_timeout dialed)
      ]
