-- ===== src/Tests/Command.antt =====
-- A start of the program with one server and a UDP listener, and a TCP connection that it accepts, on
-- which the theorems of `Command` are run.
use dotproxy.Base.{ℕ, ◌≡◌, refl, false, [], ◌∷◌, none, some}
use dotproxy.Base.Int.{pos}
use dotproxy.Base.Run.{ok}
use dotproxy.Data.Heap
use dotproxy.Data.Mru
use dotproxy.Data.PriorityQueue.{heap_interface}
use dotproxy.Network.World.{done}
use dotproxy.Network.Pool.{new_pool}
use dotproxy.Network.Client.{new_tls_client}
use dotproxy.Metrics.{ConnectionLifecycleHook}
use dotproxy.Network.Server.{UdpServer, new_udp_server}
use dotproxy.Network.Server.Listening.{
  Binder, Goroutine, go_loops, starting_udp, udp_listen_and_serve,
}
use dotproxy.Network.Server.Running.{turn}
use dotproxy.Network.Sharding.Policy.{ShardedClient, round_robin, new_sharded_client}
use dotproxy.Network.Sharding.RoundRobin.{new_round_robin}
use dotproxy.Base.Names.{find_named}
use dotproxy.Network.Sharding.Parsing.{parse_load_balancing_policy}
use dotproxy.Log.{error, parse_level}
use dotproxy.Meta.Config.{validate, parse_config}
use dotproxy.Command.{
  Libraries, Flags, Upstream, Service, serving, new_upstreams, noop_hooks, configure_hooks, launch,
  main,
}
use dotproxy.Command.Wiring.Program.{program}
use dotproxy.Tests.Peers.{peers}
use dotproxy.Tests.Log.{level_name}
use dotproxy.Tests.Meta.{one_server, below_0, above_1, read_file}

abbrev pub libraries : Libraries ℕ ℕ
libraries = record {
  read_file = read_file;
  unmarshal = λ bytes. done (some (record one_server { metrics = none }));
  below_0 = below_0;
  above_1 = above_1;
  to_lower = λ text. text;
  level_name = level_name;
  policy_name = λ policy. "RoundRobin";
  ip_text = λ ip. "127.0.0.1";
  new_client = λ config. done 1;
  version_sha = "abc";
}

abbrev pub flags : Flags
flags = record { config_path = "dotproxy.yaml"; version = false; verbosity = "ERROR" }

-- What main serves: a client with an empty pool, which the round robin policy asks.
abbrev pub upstream : Upstream
upstream = record {
  address = "1.1.1.1:853";
  config = record { server_name = "cloudflare-dns.com"; session_cache = pos 4 };
  opts = record {
    pool_opts = record { capacity = pos 4; stale_timeout = pos 0 };
    connect_timeout = pos 0;
    handshake_timeout = pos 0;
    read_timeout = pos 0;
    write_timeout = pos 0;
  };
  client = record {
    pool = record { stale_timeout = pos 0; conns = record { store = []; capacity = pos 4 } };
    stats = record { successful_connections = 0; failed_connections = 0 };
    pending = [];
  };
}

abbrev pub one_upstream : ShardedClient Upstream
one_upstream = round_robin (new_round_robin (upstream ∷ []))

abbrev pub udp_server : UdpServer
udp_server = record {
  addr = ":53";
  opts = record { max_concurrent_connections = pos 8; read_timeout = pos 0; write_timeout = pos 0 };
}

abbrev pub set_up : Service ℕ
set_up = record {
  logger = record { level = error };
  sentry = none;
  hooks = noop_hooks libraries;
  upstreams = upstream ∷ [];
  client = done one_upstream;
  max_upstream_retries = pos 2;
  udp = some udp_server;
  tcp = none;
}

pub starts : main libraries flags [] ≡ ok (serving set_up, [])
unfolding main parse_config validate launch configure_hooks new_upstreams new_tls_client new_pool
    Mru.new_mru_queue Heap.init heap_interface new_sharded_client parse_load_balancing_policy
    find_named parse_level new_udp_server
starts = refl

abbrev pub free : Binder
free = record { listen_packet = λ addr. none; listen = λ addr. none }

abbrev pub Hooked : Type 0
Hooked = ConnectionLifecycleHook ℕ

-- The UDP server listens, with its eight loops.
abbrev pub bind_udp : Goroutine Hooked
bind_udp = starting_udp udp_server

pub bound :
    turn
      (program libraries (λ address config opts. peers) peers free 3 set_up)
      peers
      free
      0
      bind_udp
      one_upstream
      []
    ≡ ok (done (one_upstream, go_loops 8 udp_server), [])
unfolding turn udp_listen_and_serve
bound = refl
