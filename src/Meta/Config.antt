-- ===== src/Meta/Config.antt =====
-- internal/meta/config.go: the validation of a configuration. The comparisons of
-- the sample rate, a float64, with 0 and with 1 are parameters, as is the parsing of a policy's name.
pub mod Validation
pub mod Parsing
use Prim.Native.String.{String}
use dotproxy.Base.{
  ℕ, zero, suc, ◌≡◌, Bool, true, false, ◌||◌, ◌&&◌, List, [], ◌∷◌, Option, none, some, not,
  if◌then◌else◌,
}
use dotproxy.Base.Int.{ℤ}
use dotproxy.Base.Time.{Duration}
use dotproxy.Base.Run.{Run, ok, panic}
use dotproxy.Network.World.{Bytes, Error, Outcome, done, fail}

abbrev pub Text : Type 0
Text = String

pub record Statsd (F : Type 0) : Type 0 where
  pub address : Text
  pub sample_rate : F

pub record MetricsConfig (F : Type 0) : Type 0 where
  pub statsd : Option (Statsd F)

pub record TcpListener : Type 0 where
  pub address : Text
  pub read_timeout : Duration
  pub write_timeout : Duration

pub record UdpListener : Type 0 where
  pub address : Text
  pub max_concurrent_connections : ℤ
  pub read_timeout : Duration
  pub write_timeout : Duration

pub record ListenerConfig : Type 0 where
  pub tcp : Option TcpListener
  pub udp : Option UdpListener

pub record UpstreamServer : Type 0 where
  pub address : Text
  pub server_name : Text
  pub connection_pool_size : ℤ
  pub connect_timeout : Duration
  pub handshake_timeout : Duration
  pub read_timeout : Duration
  pub write_timeout : Duration
  pub stale_timeout : Duration

pub record UpstreamConfig : Type 0 where
  pub load_balancing_policy : Text
  pub max_connection_retries : ℤ
  pub servers : List UpstreamServer

pub record ApplicationConfig : Type 0 where
  pub sentry_dsn : Text

-- The block `application` is not validated.
pub record Config (F : Type 0) : Type 0 where
  pub application : Option ApplicationConfig
  pub metrics : Option (MetricsConfig F)
  pub listener : Option ListenerConfig
  pub upstream : Option UpstreamConfig

pub data ConfigError : Type 0 where
  missing_statsd_address sample_rate_range : ConfigError
  missing_listener no_listener missing_tcp_address missing_udp_address : ConfigError
  missing_upstream unknown_policy no_servers : ConfigError
  missing_server_address missing_server_name : ℕ → ConfigError

abbrev pub is_empty : Text → Bool
is_empty String.[] = true
is_empty (String.◌∷◌ c text) = false

-- `if bad { return … }`, and what follows it.
abbrev pub unless : Bool → ConfigError → Option ConfigError → Option ConfigError
unless bad e rest = if bad then some e else rest

abbrev pub metrics_error :
    {F : Type 0} → (F → Bool) → (F → Bool) → Option (MetricsConfig F) → Option ConfigError
metrics_error below_0 above_1 none = none
metrics_error below_0 above_1 (some m) = elim m.statsd [
  | none ↦ none
  | some s ↦
      unless (is_empty s.address) missing_statsd_address
        (unless (below_0 s.sample_rate || above_1 s.sample_rate) sample_rate_range none)
]

abbrev pub tcp_bad : Option TcpListener → Bool
tcp_bad none = false
tcp_bad (some l) = is_empty l.address

abbrev pub udp_bad : Option UdpListener → Bool
udp_bad none = false
udp_bad (some l) = is_empty l.address

abbrev pub is_nil : {A : Type 0} → Option A → Bool
is_nil none = true
is_nil (some a) = false

abbrev pub listener_error : Option ListenerConfig → Option ConfigError
listener_error none = some missing_listener
listener_error (some l) =
    unless (is_nil l.tcp && is_nil l.udp) no_listener
      (unless (tcp_bad l.tcp) missing_tcp_address (unless (udp_bad l.udp) missing_udp_address none))

-- The loop over the servers, from place `i` on.
abbrev pub servers_error : ℕ → List UpstreamServer → Option ConfigError
servers_error i [] = none
servers_error i (s ∷ rest) =
    unless (is_empty s.address) (missing_server_address i)
      (unless (is_empty s.server_name) (missing_server_name i) (servers_error (suc i) rest))

abbrev pub is_none_given : List UpstreamServer → Bool
is_none_given [] = true
is_none_given (s ∷ rest) = false

abbrev pub upstream_error : (Text → Bool) → Option UpstreamConfig → Option ConfigError
upstream_error is_policy none = some missing_upstream
upstream_error is_policy (some u) =
    unless (not (is_empty u.load_balancing_policy) && not (is_policy u.load_balancing_policy))
      unknown_policy (unless (is_none_given u.servers) no_servers (servers_error 0 u.servers))

abbrev pub or_else : Option ConfigError → Option ConfigError → Option ConfigError
or_else none next = next
or_else (some e) next = some e

-- Config.validate: the first error, if there is one.
unfoldable pub validate :
    {F : Type 0} → (F → Bool) → (F → Bool) → (Text → Bool) → Config F → Option ConfigError
validate below_0 above_1 is_policy c =
    or_else (metrics_error below_0 above_1 c.metrics)
      (or_else (listener_error c.listener) (upstream_error is_policy c.upstream))

-- Why ParseConfig gives no configuration: the file was not read, or not parsed, or is not valid.
pub data ParseError : Type 0 where
  not_read not_parsed : Error → ParseError
  not_valid : ConfigError → ParseError

pub data Parsed (F : Type 0) : Type 0 where
  parsed : Config F → Parsed F
  refused : ParseError → Parsed F

-- ioutil.ReadFile and yaml.Unmarshal are parameters. Unmarshal leaves the pointer `cfg` nil when the
-- document is empty; the method validate then reads a field through it, and panics.
unfoldable pub parse_config :
    {F : Type 0}
    → (Text → Outcome Bytes)
    → (Bytes → Outcome (Option (Config F)))
    → (Config F → Option ConfigError)
    → Text
    → Run (Parsed F)
parse_config read_file unmarshal check path = elim (read_file path) [
  | fail e ↦ ok (refused (not_read e))
  | done data_read ↦ elim (unmarshal data_read) [
    | fail e ↦ ok (refused (not_parsed e))
    | done none ↦ panic
    | done (some cfg) ↦ elim (check cfg) [
      | some e ↦ ok (refused (not_valid e))
      | none ↦ ok (parsed cfg)
    ]
  ]
]
