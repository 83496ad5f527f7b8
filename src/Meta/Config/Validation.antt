-- ===== src/Meta/Config/Validation.antt =====
-- internal/meta/config.go: the configurations that are as they must be, and the tests for it.
pub mod Listener
pub mod Upstream
pub mod Whole
use Prim.Native.String.{String}
use mathlib.Core.Logic.{◌↔◌}
use dotproxy.Base.{
  ℕ, suc, ◌≡◌, ◌≢◌, refl, ◌⊎◌, inl, inr, Bool, true, false, ◌||◌, ◌&&◌, List, [], ◌∷◌, Option, none,
  some, All, not, subst, sym, some_inj, ap, ◌∙◌,
}
use dotproxy.Meta.Config.{
  Text, Statsd, MetricsConfig, TcpListener, UdpListener, ListenerConfig, UpstreamServer,
  UpstreamConfig, Config, ConfigError, is_empty, unless, metrics_error, tcp_bad, udp_bad, is_nil,
  listener_error, servers_error, upstream_error, is_none_given, or_else, validate,
}

is_empty_iff : (t : Text) → (is_empty t ≡ false) ↔ (t ≢ "")
is_empty_iff String.[] = (λ e. absurd (cc), λ h. absurd (h refl))
is_empty_iff (String.◌∷◌ c t) = (λ e h. absurd (cc), λ h. refl)

unless_iff :
    (bad : Bool) (e : ConfigError) (rest : Option ConfigError)
    → (unless bad e rest ≡ none) ↔ (bad ≡ false) × (rest ≡ none)
unless_iff true e rest = (λ h. absurd (cc), λ h. absurd (cc))
unless_iff false e rest = (λ h. (refl, h), λ h. h.1)

or_else_iff : (a b : Option ConfigError) → (or_else a b ≡ none) ↔ (a ≡ none) × (b ≡ none)
or_else_iff none b = (λ h. (refl, h), λ h. h.1)
or_else_iff (some e) b = (λ h. absurd (cc), λ h. absurd (cc))

-- The block `metrics` may be left out, and in it `statsd`; a statsd has an address, and a sample rate
-- in range.
abbrev pub IsMetrics : {F : Type 0} → (F → Bool) → (F → Bool) → Option (MetricsConfig F) → Type 0
IsMetrics below_0 above_1 metrics =
    (m : MetricsConfig _) (s : Statsd _)
    → metrics ≡ some m
    → m.statsd ≡ some s
    → (s.address ≢ "") × (below_0 s.sample_rate ≡ false) × (above_1 s.sample_rate ≡ false)

-- There is a listener, by TCP or by UDP, and each has an address.
abbrev pub IsListener : Option ListenerConfig → Type 0
IsListener listener =
    (l : ListenerConfig) × (listener ≡ some l)
    × ((l.tcp ≢ none) ⊎ (l.udp ≢ none))
    × ((t : TcpListener) → l.tcp ≡ some t → t.address ≢ "")
    × ((u : UdpListener) → l.udp ≡ some u → u.address ≢ "")

-- There are servers, each with an address and a name, and the policy is known if one is given.
abbrev pub IsUpstream : (Text → Bool) → Option UpstreamConfig → Type 0
IsUpstream is_policy upstream =
    (u : UpstreamConfig) × (upstream ≡ some u)
    × ((u.load_balancing_policy ≡ "") ⊎ (is_policy u.load_balancing_policy ≡ true))
    × (u.servers ≢ [])
    × All (λ s. (s.address ≢ "") × (s.server_name ≢ "")) u.servers

given_iff :
    {A : Type 0} (address : A → Text) (a : A)
    → (is_empty (address a) ≡ false) ↔ ((b : A) → some a ≡ some b → address b ≢ "")
given_iff address a = (
  λ e b same. subst (λ c. address c ≢ "") (some_inj a b same) ((is_empty_iff (address a)).0 e),
  λ h. (is_empty_iff (address a)).1 (h a refl),
)

nothing : {A : Type 0} (a : A) → ¬ (none ≡ some a)
nothing a e = cc
