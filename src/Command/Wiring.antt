-- ===== src/Command/Wiring.antt =====
-- cmd/dotproxy/main.go: how main ends, and what it hands to the servers.
pub mod Launch
pub mod Begin
pub mod Program
pub mod Goroutines
pub mod Balance
pub mod Serving
pub mod Liveness
use Prim.Native.String.{String, ◌++◌}
use dotproxy.Base.{
  ℕ, zero, suc, ◌+◌, ◌<◌, ◌≡◌, ◌≢◌, refl, sym, subst, ap, ◌∙◌, ◌⊎◌, inl, inr, Bool, true, false,
  List, [], ◌∷◌, map, Option, none, some, All, length, arith, Bool-cases, Option-cases,
  if◌then◌else◌,
}
use dotproxy.Base.Int.{ℤ, pos}
use dotproxy.Base.Run.{Run, ok, panic, Returns}
use dotproxy.Network.World.{
  NetConn, Bytes, Error, World, Outcome, Outcome-cases, done, fail, Env, M, pure, ◌>>=◌,
}
use dotproxy.Data.Mru.Laws.{new_mru_queue-IsValid}
use dotproxy.Network.Pool.{new_pool}
use dotproxy.Network.Pool.Ownership.{idle, IsValid}
use dotproxy.Network.Client.{Client, TlsClient, tls_conn, tls_stats, new_tls_client}
use dotproxy.Network.Ledger.Tls.{HasPool, idle_of}
use dotproxy.Network.Sharding.Policy.{
  ShardedClient, round_robin, random, historical, failover, availability, clients_of, IsServing,
  IsReady, new_sharded_client,
}
use dotproxy.Network.Sharding.Parsing.{parse_load_balancing_policy, parsed_policy-IsServing}
use dotproxy.Network.Dialer.{TlsClientOpts, TlsConfig, new_tls_config}
use dotproxy.Log.{ConsoleLogger, new_console_logger, parse_level}
use dotproxy.Meta.Config.{
  Text, Config, ListenerConfig, UpstreamServer, UpstreamConfig, ParseError, Parsed, parsed, refused,
  validate, parse_config,
}
use dotproxy.Meta.Config.Validation.{IsListener, IsUpstream}
use dotproxy.Meta.Config.Parsing
use dotproxy.Meta.Config.Parsing.{Holds, ParsedBy, parse_config_iff}
use dotproxy.Command.{
  Libraries, Flags, Hooks, Upstream, Service, Start, showed_version, bad_config, bad_metrics,
  serving, statsd_of, client_opts, new_upstreams, udp_of, tcp_of, configure_hooks, is_policy,
  launch, main, service, policy_of,
}

-- A client of an upstream server, under the environment of its dialer.
abbrev pub upstream_client : (Text → TlsConfig → TlsClientOpts → Env) → Client Upstream
upstream_client envs = record {
  conn = λ u. tls_conn (envs u.address u.config u.opts) u.client >>= λ r.
      pure (record u { client = r.0 }, r.1);
  stats = λ u. tls_stats u.client;
}

-- The pool is valid, and holds nothing.
abbrev pub IsFresh : Upstream → Type 0
IsFresh u = HasPool u.client × (idle_of u.client ≡ [])

-- The clients are those of the servers, in order, each with a fresh pool.
abbrev pub Serve : List UpstreamServer → List Upstream → Type 0
Serve [] [] = Unit
Serve [] (u ∷ us) = ⊥
Serve (s ∷ ss) [] = ⊥
Serve (s ∷ ss) (u ∷ us) =
    ((u.address ≡ s.address)
      × (u.config ≡ new_tls_config s.server_name (client_opts s))
      × (u.opts ≡ client_opts s)
      × IsFresh u)
    × Serve ss us

module _ {F C : Type 0} (lib : Libraries F C) (envs : Text → TlsConfig → TlsClientOpts → Env)
    (env : Env) where
  -- What main serves, from the configuration that the file holds.
  pub record Serves (path : Text) (s : Service C) : Type 0 where
    pub config : Config F
    pub listener : ListenerConfig
    pub upstream : UpstreamConfig
    pub held : Holds lib.read_file lib.unmarshal path (some config)
    pub listeners : config.listener ≡ some listener
    pub upstreams : config.upstream ≡ some upstream
    pub hooks : configure_hooks lib (statsd_of config.metrics) ≡ done s.hooks
    pub retries : s.max_upstream_retries ≡ upstream.max_connection_retries
    pub named : All (λ u. (u.address ≢ "") × (u.server_name ≢ "")) upstream.servers
    pub served : Serve upstream.servers s.upstreams
    pub nonempty : 0 < length s.upstreams
    pub udp : s.udp ≡ udp_of listener.udp
    pub tcp : s.tcp ≡ tcp_of s.hooks.client_cx_lifecycle listener.tcp
    pub listens : (s.udp ≢ none) ⊎ (s.tcp ≢ none)
    pub client : ShardedClient Upstream
    pub made : s.client ≡ done client
    pub chosen : s.client ≡ new_sharded_client s.upstreams (policy_of lib upstream)
    pub over : clients_of client ≡ s.upstreams
    pub ready : IsReady (upstream_client envs) env (λ u. HasPool u.client) client

  -- How main ends, or goes on, and why.
  abbrev pub IsStarted : Flags → Start C → Type 0
  IsStarted flags (showed_version text) =
      (flags.version ≡ true) × (text ≡ "dotproxy/" ++ lib.version_sha ++ "\n")
  IsStarted flags (bad_config e) =
      parse_config lib.read_file lib.unmarshal (validate lib.below_0 lib.above_1 (is_policy lib))
        flags.config_path
      ≡ ok (refused e)
  IsStarted flags (bad_metrics e) =
      (config : Config F) × Holds lib.read_file lib.unmarshal flags.config_path (some config)
      × (configure_hooks lib (statsd_of config.metrics) ≡ fail e)
  IsStarted flags (serving s) = Serves flags.config_path s
