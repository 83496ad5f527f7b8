-- ===== src/Tests/Conn.antt =====
-- A UDP connection with a timeout, and a dialer, on which the theorems of `Network.Conn` and
-- `Network.Dialer` are run.
use dotproxy.Base.{◌≡◌, refl, arith, [], ◌∷◌, none, some, length}
use dotproxy.Base.Int.{pos}
use dotproxy.Network.Conn.{Calls, Call, Socket, UdpConn, TcpConn, tcp_write}
use dotproxy.Network.Conn.Transaction.{Exchanges, udp_conn-Exchanges}
use dotproxy.Network.World.{done}
use dotproxy.Network.Dialer.{TlsClientOpts, tls_dialer, shake}
use dotproxy.Network.Dialer.Deadline.{
  Dialed, Used, read_limit, tls_dialer-Dialed, handshake_deadline_stays,
}

abbrev socket : Socket
socket = record {
  clock = λ w. 1_000;
  dial = λ w timeout. none;
  handshake = λ w. none;
  set_deadline = λ w call. none;
  read_from = λ w n. record { read = record { bytes = 1 ∷ []; error = none }; from = some 4 };
  write_to = λ w bs peer. record { count = length bs; error = none };
  read = λ w n. record { bytes = 1 ∷ []; error = none };
  write = λ w bs. record { count = length bs; error = none };
  close = λ w. none;
  local_addr = 1;
}

abbrev udp : UdpConn
udp = record { read_timeout = pos 50; write_timeout = pos 0; remote = some 4 }

udp_conn-Exchanges_example : Exchanges socket udp 1_024 (2 ∷ []) []
udp_conn-Exchanges_example = udp_conn-Exchanges socket udp 1_024 (2 ∷ []) []

-- A client with a handshake timeout, and none for reads.
abbrev client_opts : TlsClientOpts
client_opts = record {
  pool_opts = record { capacity = pos 1; stale_timeout = pos 0 };
  connect_timeout = pos 100;
  handshake_timeout = pos 250;
  read_timeout = pos 0;
  write_timeout = pos 40;
}

tls_dialer-Dialed_example : Dialed socket client_opts [] (tls_dialer socket client_opts [])
tls_dialer-Dialed_example = tls_dialer-Dialed socket client_opts []

-- The calls of the dialer, and a write after them.
abbrev dial_calls : Calls
dial_calls = Call.handshake ∷ Call.deadline 1_250 ∷ Call.dial (pos 100) ∷ []

abbrev client_conn : TcpConn
client_conn = record { read_timeout = pos 0; write_timeout = pos 40 }

dials : tls_dialer socket client_opts [] ≡ (done client_conn, dial_calls)
unfolding tls_dialer shake
dials = refl

handshake_deadline_stays_example :
    read_limit (tcp_write socket client_conn (3 ∷ []) dial_calls).1 ≡ some 1_250
handshake_deadline_stays_example =
    handshake_deadline_stays socket client_opts [] dial_calls
      ((tcp_write socket client_conn (3 ∷ []) dial_calls).1) client_conn (omega arith) (omega arith)
      dials (Used.writes (3 ∷ []) Used.unused)
