-- ===== src/Command.antt =====
-- cmd/dotproxy/main.go: the wiring of the program. The flags are values here, and what main and its
-- parts use of libraries, of generated files and of the build are the fields of one record. Logs are
-- left out.
pub mod Wiring
use Prim.Native.String.{String, ◌++◌ as str_append}
use dotproxy.Base.{ℕ, Bool, List, [], ◌∷◌, ◌++◌, Option, none, some, if◌then◌else◌}
use dotproxy.Base.Int.{ℤ, pos}
use dotproxy.Base.Time.{Duration}
use dotproxy.Base.Run.{Run, panic}
use dotproxy.Network.World.{Bytes, Error, Outcome, done, fail, M, pure, ◌>>=◌, lift}
use dotproxy.Network.Pool.{PoolOpts}
use dotproxy.Network.Client.{TlsClient, new_tls_client}
use dotproxy.Network.Dialer.{TlsClientOpts, TlsConfig, new_tls_config}
use dotproxy.Network.Server.{UdpServer, TcpServer, new_udp_server, new_tcp_server}
use dotproxy.Network.Server.Listening.{Goroutines, starting_udp, starting_tcp}
use dotproxy.Network.Sharding.Policy.{ShardedClient, new_sharded_client}
use dotproxy.Network.Sharding.Parsing.{parse_load_balancing_policy}
use dotproxy.Log.{Level, ConsoleLogger, new_console_logger, parse_level}
use dotproxy.Metrics.{
  ApertureConfig, ConnectionLifecycleHook, ConnectionIoHook, ProxyHook, AsyncStatsdHook,
  noop_lifecycle_hook, noop_io_hook, noop_proxy_hook, new_async_statsd_connection_lifecycle_hook,
  new_async_statsd_connection_io_hook, new_async_statsd_proxy_hook,
}
use dotproxy.Meta.Config.{
  Text, Config, ConfigError, ApplicationConfig, MetricsConfig, Statsd, TcpListener, UdpListener,
  UpstreamServer, UpstreamConfig, ListenerConfig, ParseError, parsed, refused, validate,
  parse_config, is_empty,
}

-- `F` is float64, and `C` a statsd client.
pub record Libraries (F C : Type 0) : Type 0 where
  pub read_file : Text → Outcome Bytes
  pub unmarshal : Bytes → Outcome (Option (Config F))
  pub below_0 : F → Bool
  pub above_1 : F → Bool
  pub to_lower : String → String
  pub level_name : Level → String
  pub policy_name : ℤ → String
  pub ip_text : Bytes → String
  pub new_client : ApertureConfig F → Outcome C
  pub version_sha : String

pub record Flags : Type 0 where
  pub config_path : Text
  pub version : Bool
  pub verbosity : String

pub record Hooks (C : Type 0) : Type 0 where
  pub client_cx_lifecycle : ConnectionLifecycleHook C
  pub upstream_cx_lifecycle : ConnectionLifecycleHook C
  pub client_cx_io : ConnectionIoHook C
  pub upstream_cx_io : ConnectionIoHook C
  pub proxy : ProxyHook C

-- A client of an upstream server, with the address and the TLS configuration to which its dialer is bound.
pub record Upstream : Type 0 where
  pub address : Text
  pub config : TlsConfig
  pub opts : TlsClientOpts
  pub client : TlsClient

-- What main has set up when it serves. The hooks go to the clients, the handler and the TCP server.
pub record Service (C : Type 0) : Type 0 where
  pub logger : ConsoleLogger
  pub sentry : Option (Text × String)
  pub hooks : Hooks C
  pub upstreams : List Upstream
  pub client : Outcome (ShardedClient Upstream)
  pub max_upstream_retries : ℤ
  pub udp : Option UdpServer
  pub tcp : Option (TcpServer (ConnectionLifecycleHook C))

-- How main ends, or goes on. `stopped_by` is panic(err).
pub data Start (C : Type 0) : Type 0 where
  showed_version : String → Start C
  bad_config : ParseError → Start C
  bad_metrics : Error → Start C
  serving : Service C → Start C

abbrev pub and_then : {A B : Type 0} → Outcome A → (A → Outcome B) → Outcome B
and_then (done a) f = f a
and_then (fail e) f = fail e

abbrev pub sentry_of : Option ApplicationConfig → String → Option (Text × String)
sentry_of none version = none
sentry_of (some a) version = if is_empty a.sentry_dsn then none else some (a.sentry_dsn, version)

abbrev pub statsd_of : {F : Type 0} → Option (MetricsConfig F) → Option (Statsd F)
statsd_of none = none
statsd_of (some m) = m.statsd

abbrev pub client_opts : UpstreamServer → TlsClientOpts
client_opts server = record {
  pool_opts = record {
    capacity = server.connection_pool_size;
    stale_timeout = server.stale_timeout;
  };
  connect_timeout = server.connect_timeout;
  handshake_timeout = server.handshake_timeout;
  read_timeout = server.read_timeout;
  write_timeout = server.write_timeout;
}

-- The loop over the servers of the configuration.
unfoldable pub new_upstreams : List UpstreamServer → M (List Upstream)
new_upstreams [] = pure []
new_upstreams (server ∷ rest) = do
  client ← new_tls_client ((client_opts server).pool_opts)
  upstreams ← new_upstreams rest
  pure (
      record {
        address = server.address;
        config = new_tls_config server.server_name (client_opts server);
        opts = client_opts server;
        client = client;
      }
      ∷ upstreams)

abbrev pub udp_of : Option UdpListener → Option UdpServer
udp_of none = none
udp_of (some l) = some (
    new_udp_server l.address (record {
      max_concurrent_connections = l.max_concurrent_connections;
      read_timeout = l.read_timeout;
      write_timeout = l.write_timeout;
    }))

abbrev pub tcp_of : {K : Type 0} → K → Option TcpListener → Option (TcpServer K)
tcp_of hook none = none
tcp_of hook (some l) = some (
    new_tcp_server l.address hook
      (record { read_timeout = l.read_timeout; write_timeout = l.write_timeout }))

abbrev pub go_udp : {K : Type 0} → Option UdpServer → Goroutines K
go_udp none = []
go_udp (some server) = starting_udp server ∷ []

abbrev pub go_tcp : {K : Type 0} → Option (TcpServer K) → Goroutines K
go_tcp none = []
go_tcp (some server) = starting_tcp server ∷ []

-- The goroutines that main starts: `go func() { if err := server.ListenAndServe(h); … }()` for each.
unfoldable pub go_servers : {C : Type 0} → Service C → Goroutines (ConnectionLifecycleHook C)
go_servers s = go_udp s.udp ++ go_tcp s.tcp

module _ {F C : Type 0} (lib : Libraries F C) where
  abbrev pub noop_hooks : Hooks C
  noop_hooks = record {
    client_cx_lifecycle = noop_lifecycle_hook;
    upstream_cx_lifecycle = noop_lifecycle_hook;
    client_cx_io = noop_io_hook;
    upstream_cx_io = noop_io_hook;
    proxy = noop_proxy_hook;
  }

  -- The five hooks, or the error of the first that is not made.
  unfoldable pub configure_hooks : Option (Statsd F) → Outcome (Hooks C)
  configure_hooks none = done noop_hooks
  configure_hooks (some s) =
      let new_lifecycle = λ (source : String).
        new_async_statsd_connection_lifecycle_hook lib.new_client lib.ip_text source s.address
          s.sample_rate lib.version_sha in
      let new_io = λ (source : String).
        new_async_statsd_connection_io_hook lib.new_client lib.ip_text source s.address
          s.sample_rate lib.version_sha in
      and_then (new_lifecycle "client") λ client_cx.
        and_then (new_lifecycle "upstream") λ upstream_cx. and_then (new_io "client") λ client_io.
          and_then (new_io "upstream") λ upstream_io.
            and_then
              (new_async_statsd_proxy_hook lib.new_client lib.ip_text s.address s.sample_rate
                lib.version_sha)
              λ proxy. done (record {
                client_cx_lifecycle = client_cx;
                upstream_cx_lifecycle = upstream_cx;
                client_cx_io = client_io;
                upstream_cx_io = upstream_io;
                proxy = proxy;
              })

  abbrev pub is_policy : Text → Bool
  is_policy text = (parse_load_balancing_policy lib.to_lower lib.policy_name text).1

  abbrev pub policy_of : UpstreamConfig → ℤ
  policy_of u = (parse_load_balancing_policy lib.to_lower lib.policy_name u.load_balancing_policy).0

  abbrev pub service :
      ConsoleLogger
      → Config F
      → UpstreamConfig
      → ListenerConfig
      → Hooks C
      → List Upstream
      → Service C
  service logger c u l hooks upstreams = record {
    logger = logger;
    sentry = sentry_of c.application lib.version_sha;
    hooks = hooks;
    upstreams = upstreams;
    client = new_sharded_client upstreams (policy_of u);
    max_upstream_retries = u.max_connection_retries;
    udp = udp_of l.udp;
    tcp = tcp_of hooks.client_cx_lifecycle l.tcp;
  }

  -- From the configuration on. A nil block is a nil pointer, through which main would read.
  unfoldable pub launch : ConsoleLogger → Config F → M (Start C)
  launch logger c = elim (configure_hooks (statsd_of c.metrics)) [
    | fail e ↦ pure (bad_metrics e)
    | done hooks ↦ elim c.upstream [
      | none ↦ λ w. panic
      | some u ↦ new_upstreams u.servers >>= λ upstreams. elim c.listener [
        | none ↦ λ w. panic
        | some l ↦ pure (serving (service logger c u l hooks upstreams))
      ]
    ]
  ]

  unfoldable pub main : Flags → M (Start C)
  main flags =
      if flags.version
      then pure (showed_version (str_append "dotproxy/" (str_append lib.version_sha "\n")))
      else let logger =
          new_console_logger ((parse_level lib.to_lower lib.level_name flags.verbosity).0) in
        lift (
          parse_config lib.read_file lib.unmarshal (validate lib.below_0 lib.above_1 is_policy)
            flags.config_path)
        >>= λ r. elim r [ refused e ↦ pure (bad_config e) | parsed c ↦ launch logger c ]
