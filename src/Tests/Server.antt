-- ===== src/Tests/Server.antt =====
-- A handler that serves nothing, and a connection that its server accepts, on which the theorems of
-- `Network.Server` are run.
use dotproxy.Base.Int.{pos}
use dotproxy.Base.{ℕ, none, ◌≡◌, refl, List, [], ◌∷◌, some, arith}
use dotproxy.Base.Run.{ok}
use dotproxy.Network.World.{NetConn, done, emitted, accepted, connection_open, proxy_error}
use dotproxy.Network.Server.{ServerHandler, UdpServer, TcpServer, tcp_turn}
use dotproxy.Network.Server.Listening.{
  Binder, Goroutines, starting_udp, starting_tcp, tcp_loop, connection, tcp_listen_and_serve,
}
use dotproxy.Network.Server.Running
use dotproxy.Network.Server.Running.{Running, running, stopped_by, turn}
use dotproxy.Network.Server.Running.Ends.{IsSound, Reach-IsSound}
use dotproxy.Network.Server.System
use dotproxy.Network.Server.System.{System, Step, Reach, Inv, Server-Inv}
use dotproxy.Tests.Peers.{peers}

-- Its state is a list of connections that it holds, and keeps.
abbrev quiet : ServerHandler (List NetConn)
quiet = record {
  handle = λ transport conn h w. ok ((h, done tt), w);
  consume_error = λ e w. ok (tt, emitted proxy_error ∷ w);
}

abbrev Any : List NetConn → Type 0
Any h = Unit

quiet-IsAccounted : System.IsAccounted Any (λ h. h) quiet
quiet-IsAccounted = record {
  handles = λ t conn h w v. (_, refl, (tt, λ x. omega arith));
  consumes = λ e w. (_, refl, λ x. omega arith);
}

abbrev one_accepted : System (List NetConn)
one_accepted = record {
  handler = 9 ∷ [];
  serving = 3 ∷ [];
  world = emitted (connection_open 3) ∷ accepted (done 3) ∷ [];
}

accepts : tcp_turn quiet peers [] ≡ ok (some 3, one_accepted.world)
unfolding tcp_turn
accepts = refl

one_accepted-Reach : Reach quiet peers (9 ∷ []) one_accepted
one_accepted-Reach = Reach.later Reach.start (Step.by_tcp accepts)

-- A program with two UDP loops and a TCP server, of which no address is taken.
abbrev free : Binder
free = record { listen_packet = λ addr. none; listen = λ addr. none }

abbrev two_loops : UdpServer
two_loops = record {
  addr = ":53";
  opts = record { max_concurrent_connections = pos 2; read_timeout = pos 0; write_timeout = pos 0 };
}

abbrev by_tcp : TcpServer ℕ
by_tcp = record {
  addr = ":853";
  cx_hook = 0;
  opts = record { read_timeout = pos 0; write_timeout = pos 0 };
}

abbrev at_first : Goroutines ℕ
at_first = starting_udp two_loops ∷ starting_tcp by_tcp ∷ []

-- The TCP server listens, and has accepted a connection.
abbrev listens : Running (List NetConn) ℕ
listens = record {
  handler = 9 ∷ [];
  goroutines = tcp_loop by_tcp ∷ starting_udp two_loops ∷ [];
  world = [];
}

abbrev has_accepted : Running (List NetConn) ℕ
has_accepted = record {
  handler = 9 ∷ [];
  goroutines = tcp_loop by_tcp ∷ connection 3 ∷ starting_udp two_loops ∷ [];
  world = one_accepted.world;
}

first_turn :
    turn quiet peers free 0 (starting_tcp by_tcp) (9 ∷ []) []
    ≡ ok (done (9 ∷ [], tcp_loop by_tcp ∷ []), [])
unfolding turn tcp_listen_and_serve
first_turn = refl

second_turn :
    turn quiet peers free 0 (tcp_loop by_tcp) (9 ∷ []) []
    ≡ ok (done (9 ∷ [], tcp_loop by_tcp ∷ connection 3 ∷ []), one_accepted.world)
unfolding turn tcp_turn
second_turn = refl

has_accepted-Reach : Running.Reach quiet peers free (9 ∷ []) at_first (running has_accepted)
has_accepted-Reach =
    Running.later
      (Running.later Running.start
        (Running.runs 0 (starting_udp two_loops ∷ []) [] (starting_tcp by_tcp) refl first_turn))
      (Running.runs 0 [] (starting_udp two_loops ∷ []) (tcp_loop by_tcp) refl second_turn)

Reach-IsSound_example :
    IsSound Any
      (λ h. h)
      quiet
      quiet-IsAccounted
      peers
      free
      (9 ∷ [])
      at_first
      refl
      (running has_accepted)
Reach-IsSound_example =
    Reach-IsSound Any (λ h. h) quiet quiet-IsAccounted peers free (9 ∷ []) at_first refl tt
      has_accepted-Reach
