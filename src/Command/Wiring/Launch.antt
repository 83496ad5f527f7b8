-- ===== src/Command/Wiring/Launch.antt =====
-- cmd/dotproxy/main.go: from the configuration to what is served.
use dotproxy.Network.Sharding.Availability.{new_availability}
use dotproxy.Base.{
  sym, subst, ◌∙◌, ◌<◌, ◌≡◌, ◌≢◌, refl, ap, ◌⊎◌, inl, inr, List, [], ◌∷◌, map, none, some, All,
  length, arith, Option-cases,
}
use dotproxy.Base.Int.{ℤ, pos}
use dotproxy.Base.Run.{Returns}
use dotproxy.Network.World.{NetConn, World, done, done_inj, Outcome-cases, Env}
use dotproxy.Data.Mru.Laws.{new_mru_queue-IsValid}
use dotproxy.Network.Pool.{new_pool}
use dotproxy.Network.Client.{Client, new_tls_client}
use dotproxy.Network.Ledger.Tls.{HasPool}
use dotproxy.Network.Sharding.Policy.{
  ShardedClient, round_robin, random, historical, failover, availability, clients_of, IsServing,
  IsReady, new_sharded_client,
}
use dotproxy.Network.Sharding.Parsing.{parsed_policy-IsServing}
use dotproxy.Network.Dialer.{TlsClientOpts, TlsConfig, new_tls_config}
use dotproxy.Log.{ConsoleLogger}
use dotproxy.Meta.Config.{Text, Config, ListenerConfig, UpstreamServer}
use dotproxy.Meta.Config.Validation.{IsListener, IsUpstream}
use dotproxy.Meta.Config.Parsing.{Holds}
use dotproxy.Command.{
  Libraries, Flags, Upstream, bad_metrics, serving, statsd_of, client_opts, new_upstreams, udp_of,
  tcp_of, configure_hooks, is_policy, launch, service, policy_of,
}
use dotproxy.Command.Wiring.{upstream_client, Serve, IsStarted}

new_upstreams-Serve :
    (servers : List UpstreamServer) (w : World)
    → Returns (λ r. Serve servers r.0 × (r.1 ≡ w)) (new_upstreams servers w)
unfolding new_upstreams new_tls_client new_pool
new_upstreams-Serve [] w = (([], w), refl, (tt, refl))
new_upstreams-Serve (s ∷ servers) w =
    let (m, e, (valid, empty, _)) = new_mru_queue-IsValid {A = NetConn} s.connection_pool_size in
    let ((us, w'), e', (serve, same)) = new_upstreams-Serve servers w in
    (
      (
        record {
          address = s.address;
          config = new_tls_config s.server_name (client_opts s);
          opts = client_opts s;
          client = record {
            pool = record { stale_timeout = s.stale_timeout; conns = m };
            stats = record { successful_connections = 0; failed_connections = 0 };
            pending = [];
          };
        }
            ∷ us,
        w',
      ),
      rw e (rw e' refl),
      (((refl, refl, refl, (valid, ap (map (λ (e : NetConn × ℤ). e.0)) empty)), serve), same),
    )

listens_by :
    {K : Type 0} (hook : K) (l : ListenerConfig)
    → (l.tcp ≢ none) ⊎ (l.udp ≢ none)
    → (udp_of l.udp ≢ none) ⊎ (tcp_of hook l.tcp ≢ none)
listens_by hook l (inl h) = elim (Option-cases l.tcp) [
  | inl e ↦ absurd (h e)
  | inr (t, e) ↦ inr (rw e λ p. absurd (cc))
]
listens_by hook l (inr h) = elim (Option-cases l.udp) [
  | inl e ↦ absurd (h e)
  | inr (t, e) ↦ inl (rw e λ p. absurd (cc))
]

Serve-nonempty :
    (servers : List UpstreamServer) (us : List Upstream)
    → servers ≢ []
    → Serve servers us
    → 0 < length us
Serve-nonempty [] us some_given serve = absurd (some_given refl)
Serve-nonempty (s ∷ servers) [] some_given serve = absurd serve
Serve-nonempty (s ∷ servers) (u ∷ us) some_given serve = omega arith

Serve-pools :
    (servers : List UpstreamServer) (us : List Upstream)
    → Serve servers us
    → All (λ (u : Upstream). HasPool u.client) us
Serve-pools [] [] serve = tt
Serve-pools [] (u ∷ us) serve = absurd serve
Serve-pools (s ∷ servers) [] serve = absurd serve
Serve-pools (s ∷ servers) (u ∷ us) (here, rest) = (here.3.0, Serve-pools servers us rest)

abbrev pub IsAvailability : {C : Type 0} → ShardedClient C → Type 0
IsAvailability (round_robin s) = ⊥
IsAvailability (random clients) = ⊥
IsAvailability (historical clients) = ⊥
IsAvailability (failover clients) = ⊥
IsAvailability (availability s) = Unit

made_under :
    {C : Type 0} (clients : List C) (policy : ℤ) (c : ShardedClient C)
    → new_sharded_client clients policy ≡ done c
    → policy ≡ pos 3
    → IsAvailability c
unfolding new_sharded_client
made_under clients policy c made is_3 =
    let third : new_sharded_client clients (pos 3) ≡ done c =
      ap (new_sharded_client clients) (sym is_3) ∙ made in
    subst IsAvailability (done_inj (availability (new_availability clients)) c third) tt

-- What the parsed policy's client is ready for.
IsReady-of :
    {C : Type 0} (I : Client C) (env : Env) (V : C → Type 0) (clients : List C) (policy : ℤ)
    (c : ShardedClient C)
    → All V clients
    → new_sharded_client clients policy ≡ done c
    → clients_of c ≡ clients
    → (policy ≢ pos 3 → IsServing I env V c)
    → IsReady I env V c
IsReady-of I env V clients policy (availability s) valid made over ready =
    subst (All V) (sym over) valid
IsReady-of I env V clients policy (round_robin s) valid made over ready =
    ready (made_under clients policy (round_robin s) made)
IsReady-of I env V clients policy (random cs) valid made over ready =
    ready (made_under clients policy (random cs) made)
IsReady-of I env V clients policy (historical cs) valid made over ready =
    ready (made_under clients policy (historical cs) made)
IsReady-of I env V clients policy (failover cs) valid made over ready =
    ready (made_under clients policy (failover cs) made)

module _ {F C : Type 0} (lib : Libraries F C) (envs : Text → TlsConfig → TlsClientOpts → Env)
    (env : Env) where
  pub launch-IsStarted :
      (flags : Flags) (logger : ConsoleLogger) (c : Config F) (w : World)
      → Holds lib.read_file lib.unmarshal flags.config_path (some c)
      → IsListener c.listener
      → IsUpstream (is_policy lib) c.upstream
      → Returns (λ r. IsStarted lib envs env flags r.0 × (r.1 ≡ w)) (launch lib logger c w)
  unfolding launch
  launch-IsStarted flags logger c w holds (l, at_l, some_l, _, _) (u, at_u, _, some_u, names) =
      elim (Outcome-cases (configure_hooks lib (statsd_of c.metrics))) [
        | inr (e, bad) ↦ ((bad_metrics e, w), rw (launch, bad) refl, ((c, holds, bad), refl))
        | inl (hooks, good) ↦
            let ((us, w'), e, (serve, same)) = new_upstreams-Serve u.servers w in
            let size = Serve-nonempty u.servers us some_u serve in
            let (client, made, over, ready) =
              parsed_policy-IsServing lib.to_lower lib.policy_name (upstream_client envs) env
                (λ v. HasPool v.client) us u.load_balancing_policy (Serve-pools u.servers us serve)
                size in
            (
              (serving (service lib logger c u l hooks us), w'),
              rw (launch, good, at_u, e, at_l) refl,
              (
                record {
                  config = c;
                  listener = l;
                  upstream = u;
                  held = holds;
                  listeners = at_l;
                  upstreams = at_u;
                  hooks = good;
                  retries = refl;
                  named = names;
                  served = serve;
                  nonempty = size;
                  udp = refl;
                  tcp = refl;
                  listens = listens_by hooks.client_cx_lifecycle l some_l;
                  client = client;
                  made = made;
                  chosen = refl;
                  over = over;
                  ready =
                      IsReady-of (upstream_client envs) env (λ v. HasPool v.client) us
                        (policy_of lib u) client (Serve-pools u.servers us serve) made over ready;
                },
                same,
              ),
            )
      ]
