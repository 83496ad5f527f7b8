-- ===== src/Tests/Meta.antt =====
-- A configuration with one server and a UDP listener, on which the theorem of `Meta` is run. Its sample
-- rate is in percent.
use mathlib.Core.Logic.{◌↔◌}
use dotproxy.Base.{ℕ, ◌≡◌, Bool, false, [], ◌∷◌, none, some, ltb}
use dotproxy.Base.Int.{pos}
use dotproxy.Meta.Config.{Config, Text, validate}
use dotproxy.Meta.Config.Validation.{IsMetrics, IsListener, IsUpstream}
use dotproxy.Base.{Option}
use dotproxy.Base.Run.{ok, panic}
use dotproxy.Network.World.{Bytes, Outcome, done}
use dotproxy.Meta.Config.{parsed, parse_config}
use dotproxy.Meta.Config.Parsing.{Holds, parse_config_iff}

abbrev pub below_0 : ℕ → Bool
below_0 rate = false

abbrev pub above_1 : ℕ → Bool
above_1 rate = ltb 100 rate

abbrev is_policy : Text → Bool
is_policy text = false

abbrev pub one_server : Config ℕ
one_server = record {
  application = none;
  metrics = some (record { statsd = some (record { address = ":8125"; sample_rate = 10 }) });
  listener = some (record {
    tcp = none;
    udp = some (record {
      address = ":53";
      max_concurrent_connections = pos 8;
      read_timeout = pos 0;
      write_timeout = pos 0;
    });
  });
  upstream = some (record {
    load_balancing_policy = "";
    max_connection_retries = pos 2;
    servers =
        record {
          address = "1.1.1.1:853";
          server_name = "cloudflare-dns.com";
          connection_pool_size = pos 4;
          connect_timeout = pos 0;
          handshake_timeout = pos 0;
          read_timeout = pos 0;
          write_timeout = pos 0;
          stale_timeout = pos 0;
        }
        ∷ [];
  });
}

-- Every file is there, and holds the configuration.
abbrev pub read_file : Text → Outcome Bytes
read_file path = done []

abbrev pub unmarshal : Bytes → Outcome (Option (Config ℕ))
unmarshal bytes = done (some one_server)

parse_config_iff_example :
    let run =
      parse_config read_file unmarshal (validate below_0 above_1 is_policy) "dotproxy.yaml" in
    ((c : Config ℕ)
      → (run ≡ ok (parsed c))
        ↔ Holds read_file unmarshal "dotproxy.yaml" (some c)
          × IsMetrics below_0 above_1 c.metrics
          × IsListener c.listener
          × IsUpstream is_policy c.upstream)
    × ((run ≡ panic) ↔ Holds read_file unmarshal "dotproxy.yaml" none)
parse_config_iff_example =
    parse_config_iff read_file unmarshal "dotproxy.yaml" below_0 above_1 is_policy
