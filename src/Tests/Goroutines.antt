-- ===== src/Tests/Goroutines.antt =====
-- A UDP request that the program serves, whose upstream connection goes back to its pool, on which the
-- theorem of `Command.Wiring.Serving` is run.
use dotproxy.Base.{All, ℕ, ◌≡◌, refl, true, get_elem?, [], ◌∷◌, none, arith}
use dotproxy.Base.Int.{pos}
use dotproxy.Base.Run.{ok}
use dotproxy.Data.Heap
use dotproxy.Data.Mru
use dotproxy.Data.PriorityQueue.{heap_interface}
use dotproxy.Network.World.{
  World, done, clock_read, emitted, round_trip, response_size, request_size, processed, write_done,
  wrote_to, releasing, upstream_latency, read_done, read_from, connection_open, dialed,
}
use dotproxy.Network.Pool
use dotproxy.Network.Pool.{Pool, new_persistent_conn}
use dotproxy.Network.Client.{TlsClient, tls_conn}
use dotproxy.Network.Server.{serve, udp_turn}
use dotproxy.Network.Server.Listening.{IsLoop, Goroutine, udp_loop, go_loops}
use dotproxy.Network.Server.Running.{Running, turn, runs}
use dotproxy.Network.Sharding.Policy
use dotproxy.Network.Sharding.Policy.{ShardedClient, round_robin, sharded_client}
use dotproxy.Network.Sharding.RoundRobin
use dotproxy.Command.{Upstream, go_servers}
use dotproxy.Command.Wiring.Program.{program}
use dotproxy.Command.Wiring.Goroutines
use dotproxy.Command.Wiring.Goroutines.{Whole, Reaches, serves, gives_back, with_pool}
use dotproxy.Command.Wiring.Serving.{IsLegal, main-IsLegal}
use dotproxy.Command.Wiring.Liveness.{main-serves}
use dotproxy.Network.Server.Running.Settling.{IsBound, Leads}
use dotproxy.Protocol.DnsProxy.{
  dns_handler, handle, client_read, client_write, respond, attempt, proxy_upstream,
  upstream_transact, read_upstream, read_rest,
}
use dotproxy.Tests.Peers.{peers, start_time, peers-DrawsBelow, peers-ReadsBytes}
use dotproxy.Tests.Command.{
  libraries, flags, one_upstream, upstream, udp_server, set_up, free, Hooked, starts, bound,
  bind_udp,
}

abbrev loop : Goroutine Hooked
loop = udp_loop udp_server

abbrev fresh : TlsClient
fresh = upstream.client

abbrev asked_once : ShardedClient Upstream
asked_once = round_robin (record {
  clients = record upstream { client = record fresh { pending = true ∷ [] } } ∷ [];
  index = 0;
})

-- The client 4 asks, the new connection 7 answers, and 4 gets the answer.
abbrev served_world : World
served_world =
    emitted (round_trip 4 7)
    ∷ emitted (response_size 2 7)
    ∷ emitted (request_size 5 4)
    ∷ emitted (processed 4 7)
    ∷ emitted (write_done 4)
    ∷ wrote_to 4 (0 ∷ 2 ∷ []) (record { count = 2; error = none })
    ∷ releasing 7
    ∷ emitted (upstream_latency 4 7)
    ∷ emitted (read_done 7)
    ∷ read_from 7 2 (record { bytes = 0 ∷ 2 ∷ []; error = none })
    ∷ read_from 7 2 (record { bytes = 0 ∷ 2 ∷ []; error = none })
    ∷ emitted (write_done 7)
    ∷ wrote_to 7 (0 ∷ 3 ∷ 9 ∷ 8 ∷ 7 ∷ []) (record { count = 5; error = none })
    ∷ emitted (connection_open 7)
    ∷ dialed (done 7)
    ∷ emitted (read_done 4)
    ∷ read_from 4 1024 (record { bytes = 9 ∷ 8 ∷ 7 ∷ []; error = none })
    ∷ []

serves_one :
    turn
      (program libraries (λ address config opts. peers) peers free 3 set_up)
      peers
      free
      4
      loop
      one_upstream
      []
    ≡ ok (done (asked_once, loop ∷ []), served_world)
unfolding turn udp_turn serve dns_handler handle client_read proxy_upstream attempt sharded_client
    Policy.conn RoundRobin.conn tls_conn Pool.conn Mru.pop Pool.open_conn upstream_transact
    read_upstream read_rest respond client_write heap_interface
serves_one = refl

-- The goroutine that closes 7 puts it into the pool.
abbrev pooled : Pool
pooled = record {
  stale_timeout = pos 0;
  conns = record {
    store = record { value = 7; priority = pos 1_000; index = pos 0 } ∷ [];
    capacity = pos 4;
  };
}

gives_7 :
    Pool.close peers fresh.pool (new_persistent_conn 7) served_world
    ≡ ok ((pooled, none), clock_read start_time ∷ served_world)
unfolding Pool.close Pool.put Mru.push heap_interface Heap.push Heap.up
gives_7 = refl

abbrev asked_upstream : Upstream
asked_upstream = record upstream { client = record fresh { pending = true ∷ [] } }

abbrev all_back : Whole ℕ
all_back = record {
  servers = record {
    handler = round_robin (record { clients = with_pool asked_upstream pooled ∷ []; index = 0 });
    goroutines = loop ∷ go_loops 7 udp_server;
    world = clock_read start_time ∷ served_world;
  };
  unfilled = λ i. Goroutines.rounds_of peers (get_elem? (upstream ∷ []) i);
  given_back = 7 ∷ [];
  destroyed = [];
  lost = [];
}

all_back-Reaches :
    Reaches libraries (λ address config opts. peers) peers free 3 set_up one_upstream all_back
unfolding go_servers
all_back-Reaches =
    Goroutines.later
      (Goroutines.later
        (Goroutines.later Goroutines.begins (serves (runs 0 [] [] bind_udp refl bound)))
        (serves (runs 4 [] (go_loops 7 udp_server) loop refl serves_one)))
      (gives_back 7 0 asked_upstream (omega arith) refl gives_7)

main-IsLegal_example : IsLegal libraries (λ address config opts. peers) peers free 3 set_up all_back
main-IsLegal_example =
    main-IsLegal libraries (λ address config opts. peers) peers free flags 3 [] [] set_up
      one_upstream (λ nil. absurd (cc nil.2)) starts refl peers-DrawsBelow peers-ReadsBytes
      all_back-Reaches

abbrev at_begin : Whole ℕ
at_begin = record {
  servers = record { handler = one_upstream; goroutines = bind_udp ∷ []; world = [] };
  unfilled = λ i. Goroutines.rounds_of peers (get_elem? (upstream ∷ []) i);
  given_back = [];
  destroyed = [];
  lost = [];
}

at_begin-Reaches :
    Reaches libraries (λ address config opts. peers) peers free 3 set_up one_upstream at_begin
unfolding go_servers
at_begin-Reaches = Goroutines.begins

all_free : All (IsBound free) (go_servers set_up)
unfolding go_servers
all_free = (refl, tt)

main-serves_example :
    (r : Running (ShardedClient Upstream) Hooked) × Leads
      (program libraries (λ address config opts. peers) peers free 3 set_up)
      peers
      free
      at_begin.servers
      r
    × Reaches libraries
        (λ address config opts. peers)
        peers
        free
        3
        set_up
        one_upstream
        (record at_begin { servers = r })
    × All IsLoop r.goroutines
    × IsLegal libraries
        (λ address config opts. peers)
        peers
        free
        3
        set_up
        (record at_begin { servers = r })
main-serves_example =
    main-serves libraries (λ address config opts. peers) peers free flags 3 [] [] set_up
      one_upstream (λ nil. absurd (cc nil.2)) starts refl (λ h. h) peers-DrawsBelow peers-ReadsBytes
      all_free at_begin-Reaches
