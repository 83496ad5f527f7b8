-- ===== src/Metrics.antt =====
-- internal/metrics/hook.go: the hooks that report what happens, to statsd or to nobody. The statsd
-- client is a library's: its constructor is a parameter, and a report is the list of calls that the
-- goroutine of an emission makes, with the client on which it makes them. The text of an IP address is
-- a parameter too. How the goroutines of EmitProcess share their counter is the matter of Sequence.
pub mod Events
pub mod Sequence
use Prim.Native.String.{String, ◌++◌}
use dotproxy.Base.{ℕ, ◌*◌, List, [], ◌∷◌, map, if◌then◌else◌}
use dotproxy.Base.Int.{ℤ, pos, ltb_ℤ}
use dotproxy.Base.Time.{Duration, second}
use dotproxy.Network.World.{Bytes, Outcome, done, fail}

-- net.Addr, by its dynamic type; an IP address is its bytes.
pub data NetAddr : Type 0 where
  udp_addr tcp_addr : Bytes → NetAddr
  other_addr : NetAddr

abbrev pub Tags : Type 0
Tags = List (String × String)

-- The methods of aperture.Statsd. A gauge is a float64 in the code; here it is the integer of which it
-- is made.
pub data StatsdCall : Type 0 where
  count : String → ℕ → Tags → StatsdCall
  timing : String → Duration → Tags → StatsdCall
  size : String → ℤ → Tags → StatsdCall
  gauge : String → ℤ → Tags → StatsdCall

-- aperture.Config, with sample rates in `F`.
pub record ApertureConfig (F : Type 0) : Type 0 where
  pub address : String
  pub prefix : String
  pub sample_rate : F
  pub transport_probe_interval : Duration
  pub default_tags : Tags

-- The calls of one emission, on clients in `C`.
abbrev pub Report : Type 0 → Type 0
Report C = List (C × StatsdCall)

pub record ConnectionLifecycleHook (C : Type 0) : Type 0 where
  pub emit_connection_open : Duration → NetAddr → Report C
  pub emit_connection_close : NetAddr → Report C
  pub emit_connection_error : Report C

pub record ConnectionIoHook (C : Type 0) : Type 0 where
  pub emit_read : Duration → NetAddr → Report C
  pub emit_read_error : NetAddr → Report C
  pub emit_write : Duration → NetAddr → Report C
  pub emit_write_error : NetAddr → Report C
  pub emit_retry : NetAddr → Report C

-- ProxyHook, less EmitProcess, which has a state.
pub record ProxyHook (C : Type 0) : Type 0 where
  pub emit_request_size : ℤ → NetAddr → Report C
  pub emit_response_size : ℤ → NetAddr → Report C
  pub emit_rtt : Duration → NetAddr → NetAddr → Report C
  pub emit_upstream_latency : Duration → NetAddr → NetAddr → Report C
  pub emit_error : Report C

-- The latencies are given to the hooks; a hook keeps its client and, for connections, its source.
pub record AsyncStatsdHook (C : Type 0) : Type 0 where
  pub client : C
  pub source : String

abbrev pub transport_from_addr : NetAddr → String
transport_from_addr (udp_addr ip) = "udp"
transport_from_addr (tcp_addr ip) = "tcp"
transport_from_addr other_addr = "null"

-- The calls of a goroutine, on its client.
abbrev pub on : {C : Type 0} → C → List StatsdCall → Report C
on client = map (λ call. (client, call))

-- AsyncStatsdProxyHook.EmitError
abbrev pub emit_proxy_error : {C : Type 0} → C → Report C
emit_proxy_error client = on client (count "event.proxy.error" 1 [] ∷ [])

module _ (ip_text : Bytes → String) where
  abbrev pub ip_from_addr : NetAddr → String
  ip_from_addr (udp_addr ip) = ip_text ip
  ip_from_addr (tcp_addr ip) = ip_text ip
  ip_from_addr other_addr = "null"

  abbrev pub addr_tags : NetAddr → Tags
  addr_tags addr = ("addr", ip_from_addr addr) ∷ ("transport", transport_from_addr addr) ∷ []

  unfoldable pub async_lifecycle_hook : {C : Type 0} → AsyncStatsdHook C → ConnectionLifecycleHook C
  async_lifecycle_hook h = record {
    emit_connection_open = λ latency addr. on h.client (
        count ("event." ++ h.source ++ ".cx_open") 1 (addr_tags addr)
        ∷ (if ltb_ℤ (pos 0) latency
            then timing ("latency." ++ h.source ++ ".cx_open") latency (addr_tags addr) ∷ []
            else []));
    emit_connection_close =
        λ addr. on h.client (count ("event." ++ h.source ++ ".cx_close") 1 (addr_tags addr) ∷ []);
    emit_connection_error = on h.client (count ("event." ++ h.source ++ ".cx_error") 1 [] ∷ []);
  }

  unfoldable pub async_io_hook : {C : Type 0} → AsyncStatsdHook C → ConnectionIoHook C
  async_io_hook h = record {
    emit_read = λ latency addr. on h.client (
        count ("event." ++ h.source ++ ".cx_read") 1 (addr_tags addr)
        ∷ timing ("latency." ++ h.source ++ ".cx_read") latency (addr_tags addr)
        ∷ []);
    emit_read_error = λ addr.
        on h.client (count ("event." ++ h.source ++ ".cx_read_error") 1 (addr_tags addr) ∷ []);
    emit_write = λ latency addr. on h.client (
        count ("event." ++ h.source ++ ".cx_write") 1 (addr_tags addr)
        ∷ timing ("latency." ++ h.source ++ ".cx_write") latency (addr_tags addr)
        ∷ []);
    emit_write_error = λ addr.
        on h.client (count ("event." ++ h.source ++ ".cx_write_error") 1 (addr_tags addr) ∷ []);
    emit_retry = λ addr.
        on h.client (count ("event." ++ h.source ++ ".cx_io_retry") 1 (addr_tags addr) ∷ []);
  }

  unfoldable pub async_proxy_hook : {C : Type 0} → C → ProxyHook C
  async_proxy_hook client = record {
    emit_request_size = λ bytes addr.
        on client (size "size.proxy.request" bytes (("addr", ip_from_addr addr) ∷ []) ∷ []);
    emit_response_size = λ bytes addr.
        on client (size "size.proxy.response" bytes (("addr", ip_from_addr addr) ∷ []) ∷ []);
    emit_rtt = λ latency addr upstream. on client (
        timing "latency.proxy.tx_rtt" latency (
          ("client", ip_from_addr addr)
          ∷ ("upstream", ip_from_addr upstream)
          ∷ ("transport", transport_from_addr addr)
          ∷ [])
        ∷ []);
    emit_upstream_latency = λ latency addr upstream. on client (
        timing "latency.proxy.tx_upstream" latency
          (("client", ip_from_addr addr) ∷ ("upstream", ip_from_addr upstream) ∷ [])
        ∷ []);
    emit_error = emit_proxy_error client;
  }

abbrev pub noop_lifecycle_hook : {C : Type 0} → ConnectionLifecycleHook C
noop_lifecycle_hook = record {
  emit_connection_open = λ latency addr. [];
  emit_connection_close = λ addr. [];
  emit_connection_error = [];
}

abbrev pub noop_io_hook : {C : Type 0} → ConnectionIoHook C
noop_io_hook = record {
  emit_read = λ latency addr. [];
  emit_read_error = λ addr. [];
  emit_write = λ latency addr. [];
  emit_write_error = λ addr. [];
  emit_retry = λ addr. [];
}

abbrev pub noop_proxy_hook : {C : Type 0} → ProxyHook C
noop_proxy_hook = record {
  emit_request_size = λ bytes addr. [];
  emit_response_size = λ bytes addr. [];
  emit_rtt = λ latency addr upstream. [];
  emit_upstream_latency = λ latency addr upstream. [];
  emit_error = [];
}

module _ {F C : Type 0} (new_client : ApertureConfig F → Outcome C) where
  unfoldable pub statsd_client_factory : String → F → String → Outcome C
  statsd_client_factory addr sample_rate version = new_client (record {
    address = addr;
    prefix = "dotproxy";
    sample_rate = sample_rate;
    transport_probe_interval = pos (10 * second);
    default_tags = ("version", version) ∷ [];
  })

  unfoldable pub new_async_statsd_connection_lifecycle_hook :
      (Bytes → String) → String → String → F → String → Outcome (ConnectionLifecycleHook C)
  new_async_statsd_connection_lifecycle_hook ip_text source addr sample_rate version =
      elim (statsd_client_factory addr sample_rate version) [
        | fail e ↦ fail e
        | done client ↦
            done (async_lifecycle_hook ip_text (record { client = client; source = source }))
      ]

  unfoldable pub new_async_statsd_connection_io_hook :
      (Bytes → String) → String → String → F → String → Outcome (ConnectionIoHook C)
  new_async_statsd_connection_io_hook ip_text source addr sample_rate version =
      elim (statsd_client_factory addr sample_rate version) [
        | fail e ↦ fail e
        | done client ↦ done (async_io_hook ip_text (record { client = client; source = source }))
      ]

  unfoldable pub new_async_statsd_proxy_hook :
      (Bytes → String) → String → F → String → Outcome (ProxyHook C)
  new_async_statsd_proxy_hook ip_text addr sample_rate version =
      elim (statsd_client_factory addr sample_rate version) [
        | fail e ↦ fail e
        | done client ↦ done (async_proxy_hook ip_text client)
      ]
