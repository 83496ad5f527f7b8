-- ===== src/Network/Server.antt =====
-- internal/network/server.go: the loops that take requests by UDP and connections by TCP, over any
-- handler. A turn of a loop, and what a goroutine does for one TCP connection, are functions of their
-- own; when they come is the matter of System, and what starts them that of Listening and Running.
pub mod System
pub mod Listening
pub mod Running
use Prim.Native.String.{String}
use dotproxy.Base.{ℕ, ◌≡◌, Bool, List, Option, none, some, if◌then◌else◌}
use dotproxy.Base.Int.{ℤ, pos, negsuc, leb_ℤ}
use dotproxy.Base.Time.{Duration}
use dotproxy.Network.World.{
  NetConn, Error, Outcome, done, fail, Env, M, pure, ◌>>=◌, ◌>>◌, emit, accept, close_conn,
  connection_open, connection_close, connection_error,
}

pub data Transport : Type 0 where
  tcp udp : Transport

-- The interface ServerHandler, for a handler with state `H`.
pub record ServerHandler (H : Type 0) : Type 0 where
  pub handle : Transport → NetConn → H → M (H × Outcome (Unit {0}))
  pub consume_error : Error → M (Unit {0})

pub record UdpServerOpts : Type 0 where
  pub max_concurrent_connections : ℤ
  pub read_timeout : Duration
  pub write_timeout : Duration

pub record TcpServerOpts : Type 0 where
  pub read_timeout : Duration
  pub write_timeout : Duration

pub record UdpServer : Type 0 where
  pub addr : String
  pub opts : UdpServerOpts

-- `K` is metrics.ConnectionLifecycleHook.
pub record TcpServer (K : Type 0) : Type 0 where
  pub addr : String
  pub cx_hook : K
  pub opts : TcpServerOpts

-- As many loops as are asked for, or 16.
unfoldable pub new_udp_server : String → UdpServerOpts → UdpServer
new_udp_server addr opts = record {
  addr = addr;
  opts =
      if leb_ℤ opts.max_concurrent_connections (pos 0)
      then record opts { max_concurrent_connections = pos 16 }
      else opts;
}

unfoldable pub new_tcp_server : {K : Type 0} → String → K → TcpServerOpts → TcpServer K
new_tcp_server addr cx_hook opts = record { addr = addr; cx_hook = cx_hook; opts = opts }

module _ {H : Type 0} (S : ServerHandler H) where
  -- `if err := handler.Handle(…); err != nil { handler.ConsumeError(…) }`
  unfoldable pub serve : Transport → NetConn → H → M H
  serve transport conn h = S.handle transport conn h >>= λ r. elim r.1 [
    | done _ ↦ pure r.0
    | fail e ↦ S.consume_error e >> pure r.0
  ]

  -- A turn of a UDP loop, with the new connection `conn`.
  unfoldable pub udp_turn : NetConn → H → M H
  udp_turn = serve udp

  -- The goroutine of an accepted connection; what it defers comes last.
  unfoldable pub tcp_connection : Env → NetConn → H → M H
  tcp_connection env conn h = do
    h' ← serve tcp conn h
    emit (connection_close conn)
    err ← close_conn env conn
    pure h'

  -- A turn of the TCP loop, and the connection for which it starts a goroutine.
  unfoldable pub tcp_turn : Env → M (Option NetConn)
  tcp_turn env = accept env >>= λ r. elim r [
    | fail e ↦ emit connection_error >> S.consume_error e >> pure none
    | done conn ↦ emit (connection_open conn) >> pure (some conn)
  ]
