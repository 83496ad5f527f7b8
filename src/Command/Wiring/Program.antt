-- ===== src/Command/Wiring/Program.antt =====
-- cmd/dotproxy/main.go: the whole program, from its flags to its servers.
use dotproxy.Base.{ℕ, ◌≡◌, refl, sym, subst, ap, ◌∙◌, List, [], ◌∷◌, ◌++◌, Option, none, some}
use dotproxy.Base.Run.{ok, Returns-at}
use dotproxy.Network.World.{done_inj, NetConn, World, done, Env}
use dotproxy.Network.Client.{tls_client}
use dotproxy.Network.Client.{Client}
use dotproxy.Network.Ledger
use dotproxy.Network.Ledger.{Accounts}
use dotproxy.Network.Ledger.Tls.{HasPool, idle_of, tls_client-IsAccounted}
use dotproxy.Network.Ledger.Sharded.{held_all, held_by}
use dotproxy.Network.Server.{ServerHandler, UdpServer, TcpServer}
use dotproxy.Metrics.{ConnectionLifecycleHook}
use dotproxy.Network.Server.Listening.{Binder, connections}
use dotproxy.Network.Sharding.Policy.{
  ShardedClient, round_robin, random, historical, failover, availability, sharded_client, IsServing,
  IsReady,
}
use dotproxy.Protocol.DnsProxy.{dns_handler}
use dotproxy.Meta.Config.{Text, UpstreamServer}
use dotproxy.Meta.Config.Parsing.{Holds}
use dotproxy.Network.Dialer.{TlsClientOpts, TlsConfig}
use dotproxy.Command.{
  Libraries, Flags, Upstream, Service, serving, main, go_udp, go_tcp, go_servers,
}
use dotproxy.Command.Wiring.Launch.{IsAvailability}
use dotproxy.Command.Wiring.{upstream_client, Serve, Serves}
use dotproxy.Command.Wiring.Begin.{main-IsStarted}

abbrev pub HasClient : Upstream → Type 0
HasClient u = HasPool u.client

abbrev pub idle_at : Upstream → List NetConn
idle_at u = idle_of u.client

pub upstream_client-IsAccounted :
    (envs : Text → TlsConfig → TlsClientOpts → Env)
    → Ledger.IsAccounted HasClient idle_at (upstream_client envs)
unfolding tls_client
upstream_client-IsAccounted envs u w v =
    let (((c, o), w'), e, p) =
      tls_client-IsAccounted (envs u.address u.config u.opts) u.client w v in
    (((record u { client = c }, o), w'), rw e refl, p)

Serve-held :
    (servers : List UpstreamServer) (us : List Upstream)
    → Serve servers us
    → held_all HasClient idle_at us ≡ []
Serve-held [] [] serve = refl
Serve-held [] (u ∷ us) serve = absurd serve
Serve-held (s ∷ servers) [] serve = absurd serve
Serve-held (s ∷ servers) (u ∷ us) (here, rest) = rw here.3.1 (Serve-held servers us rest)

pub IsServing-of :
    {C : Type 0} (I : Client C) (env : Env) (V : C → Type 0) (c : ShardedClient C)
    → ¬ IsAvailability c
    → IsReady I env V c
    → IsServing I env V c
IsServing-of I env V (availability s) other ready = absurd (other tt)
IsServing-of I env V (round_robin s) other ready = ready
IsServing-of I env V (random cs) other ready = ready
IsServing-of I env V (historical cs) other ready = ready
IsServing-of I env V (failover cs) other ready = ready

none_accepted :
    {K : Type 0} (u : Option UdpServer) (t : Option (TcpServer K))
    → connections (go_udp u ++ go_tcp t) ≡ []
none_accepted none none = refl
none_accepted none (some t) = refl
none_accepted (some u) none = refl
none_accepted (some u) (some t) = refl

pub connections-go_servers : {K : Type 0} (s : Service K) → connections (go_servers s) ≡ []
unfolding go_servers
connections-go_servers s = none_accepted s.udp s.tcp

module _ {F K : Type 0} (lib : Libraries F K) (envs : Text → TlsConfig → TlsClientOpts → Env)
    (env : Env) (binder : Binder) where
  abbrev pub Hook : Type 0
  Hook = ConnectionLifecycleHook K

  -- The handler of the service, as the servers see it.
  abbrev pub program : ℕ → Service K → ServerHandler (ShardedClient Upstream)
  program fuel s =
      dns_handler (sharded_client (upstream_client envs) env fuel) env s.max_upstream_retries

  pub Serves-of :
      (flags : Flags) (w w' : World) (s : Service K)
      → ¬ Holds lib.read_file lib.unmarshal flags.config_path none
      → main lib flags w ≡ ok (serving s, w')
      → Serves lib envs env flags.config_path s
  Serves-of flags w w' s given starts =
      (Returns-at _ (main-IsStarted lib envs env flags w given) starts).0

  -- The client with which main starts is ready, and holds no connection.
  pub begins :
      (flags : Flags) (w w' : World) (s : Service K) (c : ShardedClient Upstream)
      → ¬ Holds lib.read_file lib.unmarshal flags.config_path none
      → main lib flags w ≡ ok (serving s, w')
      → s.client ≡ done c
      → IsReady (upstream_client envs) env HasClient c × (held_by HasClient idle_at c ≡ [])
  begins flags w w' s c given starts made =
      let serves = Serves-of flags w w' s given starts in
      let same = done_inj serves.client c (sym serves.made ∙ made) in
      (
        subst (IsReady (upstream_client envs) env HasClient) same serves.ready,
        ap (held_by HasClient idle_at) (sym same)
            ∙ ap (held_all HasClient idle_at) serves.over
            ∙ Serve-held serves.upstream.servers s.upstreams serves.served,
      )
