-- ===== src/Command/Wiring/Liveness.antt =====
-- cmd/dotproxy/main.go: how the whole program comes to serve.
use dotproxy.Base.{ℕ, ◌≡◌, refl, [], none, All}
use dotproxy.Base.Run.{ok}
use dotproxy.Network.World.{World, done, Env}
use dotproxy.Network.Ledger.Child.{set_client}
use dotproxy.Network.Ledger.Sharded.{held_by}
use dotproxy.Metrics.{ConnectionLifecycleHook}
use dotproxy.Network.Server.System
use dotproxy.Network.Server.System.{System}
use dotproxy.Network.Server.Listening.{Binder, IsLoop}
use dotproxy.Network.Server.Running.{Running}
use dotproxy.Network.Server.Running.Progress.{Step-kept, Step-IsOf}
use dotproxy.Network.Server.Running.Settling.{
  IsBound, IsValid, IsValid-step, Leads, here, onward, settle,
}
use dotproxy.Network.Sharding.Policy.{
  ShardedClient, round_robin, random, historical, failover, availability, IsReady, IsServing,
}
use dotproxy.Network.Sharding.Availability.Select.{DrawsBelow}
use dotproxy.Protocol.DnsProxy.Transact.{ReadsBytes}
use dotproxy.Protocol.DnsProxy.Service.{sharded_proxy-IsAccounted}
use dotproxy.Meta.Config.{Text}
use dotproxy.Meta.Config.Parsing.{Holds}
use dotproxy.Network.Dialer.{TlsClientOpts, TlsConfig}
use dotproxy.Command.{Libraries, Flags, Upstream, Service, serving, main, go_servers}
use dotproxy.Command.Wiring.Launch.{IsAvailability}
use dotproxy.Command.Wiring.{upstream_client}
use dotproxy.Command.Wiring.Program.{
  HasClient, idle_at, upstream_client-IsAccounted, IsServing-of, program, begins,
}
use dotproxy.Command.Wiring.Goroutines
use dotproxy.Command.Wiring.Goroutines.{
  Whole, Step, serves, gives_back, destroys, fills, counts, Reaches,
}
use dotproxy.Command.Wiring.Balance.{Inv}
use dotproxy.Command.Wiring.Serving.{IsLegal, Inv-IsLegal, Reaches-Inv}

policy_kept :
    {C : Type 0} (s : ShardedClient C) (i : ℕ) (c : C)
    → ¬ IsAvailability s
    → ¬ IsAvailability (set_client s i c)
policy_kept (round_robin s) i c other = other
policy_kept (random cs) i c other = other
policy_kept (historical cs) i c other = other
policy_kept (failover cs) i c other = other
policy_kept (availability s) i c other = other

other_policy :
    (envs : Text → TlsConfig → TlsClientOpts → Env) (env : Env) (c : ShardedClient Upstream)
    → IsServing (upstream_client envs) env HasClient c
    → ¬ IsAvailability c
other_policy envs env (round_robin s) v a = a
other_policy envs env (random cs) v a = a
other_policy envs env (historical cs) v a = a
other_policy envs env (failover cs) v a = a
other_policy envs env (availability s) v a = v

module _ {F K : Type 0} (lib : Libraries F K) (envs : Text → TlsConfig → TlsClientOpts → Env)
    (env : Env) (binder : Binder) (fuel : ℕ) (s : Service K) (draws : DrawsBelow env)
    (bytes : ReadsBytes env) where
  abbrev Serves : ShardedClient Upstream → Type 0
  Serves = IsServing (upstream_client envs) env HasClient

  program-IsAccounted :
      System.IsAccounted Serves (held_by HasClient idle_at) (program lib envs env binder fuel s)
  program-IsAccounted =
      sharded_proxy-IsAccounted HasClient idle_at (upstream_client envs)
        (upstream_client-IsAccounted envs) env fuel s.max_upstream_retries draws bytes

  abbrev Valid : System (ShardedClient Upstream) → Type 0
  Valid =
      IsValid Serves (held_by HasClient idle_at) (program lib envs env binder fuel s)
        program-IsAccounted env

  Valid-step :
      (a b : System (ShardedClient Upstream))
      → System.Step (program lib envs env binder fuel s) env a b
      → Valid a
      → Valid b
  Valid-step =
      IsValid-step Serves (held_by HasClient idle_at) (program lib envs env binder fuel s)
        program-IsAccounted env

  serving_at :
      {t : Whole K}
      → Inv lib envs env binder fuel s draws bytes t
      → ¬ IsAvailability t.servers.handler
      → Serves t.servers.handler
  serving_at {t} inv other =
      IsServing-of (upstream_client envs) env HasClient t.servers.handler other inv.ready

  -- The policy stays, and the servers that are still to listen are ones whose address can be bound.
  abbrev Fit : Whole K → Type 0
  Fit t = (¬ IsAvailability t.servers.handler) × All (IsBound binder) t.servers.goroutines

  Step-Fit :
      {t t' : Whole K}
      → Inv lib envs env binder fuel s draws bytes t
      → Fit t
      → Step lib envs env binder fuel s t t'
      → Fit t'
  Step-Fit {t} inv (other, bound) (serves {r} step) =
      let v = serving_at inv other in
      (
        other_policy envs env r.handler
            (Step-kept Serves (held_by HasClient idle_at) (program lib envs env binder fuel s)
              program-IsAccounted env binder Valid Valid-step v v step).0,
        Step-IsOf Serves (held_by HasClient idle_at) (program lib envs env binder fuel s)
            program-IsAccounted env binder Valid Valid-step
            (λ u. binder.listen_packet u.addr ≡ none) (λ u. binder.listen u.addr ≡ none) v bound
            step,
      )
  Step-Fit {t} inv (other, bound) (gives_back c i u waits at closing) =
      (policy_kept t.servers.handler i _ other, bound)
  Step-Fit {t} inv (other, bound) (destroys c i u waits at closing) =
      (policy_kept t.servers.handler i _ other, bound)
  Step-Fit {t} inv (other, bound) (fills i k u left at filled) =
      (policy_kept t.servers.handler i _ other, bound)
  Step-Fit {t} inv (other, bound) (counts i u at) = (policy_kept t.servers.handler i _ other, bound)

  Reaches-Fit :
      (c : ShardedClient Upstream) {t : Whole K}
      → IsReady (upstream_client envs) env HasClient c
      → held_by HasClient idle_at c ≡ []
      → ¬ IsAvailability c
      → All (IsBound binder) (go_servers s)
      → Reaches lib envs env binder fuel s c t
      → Fit t
  Reaches-Fit c ready none_held other bound Goroutines.begins = (other, bound)
  Reaches-Fit c ready none_held other bound (Goroutines.later reach step) =
      Step-Fit (Reaches-Inv lib envs env binder fuel s draws bytes c ready none_held reach)
        (Reaches-Fit c ready none_held other bound reach) step

  reaches_on :
      (c : ShardedClient Upstream) (t : Whole K)
      {r r' : Running (ShardedClient Upstream) (ConnectionLifecycleHook K)}
      → Leads (program lib envs env binder fuel s) env binder r r'
      → Reaches lib envs env binder fuel s c (record t { servers = r })
      → Reaches lib envs env binder fuel s c (record t { servers = r' })
  reaches_on c t here reach = reach
  reaches_on c t (onward step leads) reach =
      reaches_on c t leads (Goroutines.later reach (serves step))

module _ {F K : Type 0} (lib : Libraries F K) (envs : Text → TlsConfig → TlsClientOpts → Env)
    (env : Env) (binder : Binder) where
  -- The whole program, under a policy other than Availability, where the addresses of its servers can be
  -- bound, from a configuration whose document is not nil, with draws in range and Reads that store
  -- bytes: from every state that all its goroutines reach, in any order, turns of its servers lead to one
  -- in which they only serve. There each goroutine of the servers is a loop, and the state is legal: as
  -- many loops for UDP and for TCP as main asked for, each connection in a pool, refused by a full
  -- pool, closed, or handed over, and no turn that faults.
  pub main-serves :
      (flags : Flags) (fuel : ℕ) (w w' : World) (s : Service K) (c : ShardedClient Upstream)
      {t : Whole K}
      → ¬ Holds lib.read_file lib.unmarshal flags.config_path none
      → main lib flags w ≡ ok (serving s, w')
      → s.client ≡ done c
      → ¬ IsAvailability c
      → DrawsBelow env
      → ReadsBytes env
      → All (IsBound binder) (go_servers s)
      → Reaches lib envs env binder fuel s c t
      → (r : Running (ShardedClient Upstream) (ConnectionLifecycleHook K)) × Leads
          (program lib envs env binder fuel s)
          env
          binder
          t.servers
          r
        × Reaches lib envs env binder fuel s c (record t { servers = r })
        × All IsLoop r.goroutines
        × IsLegal lib envs env binder fuel s (record t { servers = r })
  main-serves flags fuel w w' s c {t} given starts made other draws bytes bound reach =
      let (ready, none_held) = begins lib envs env binder flags w w' s c given starts made in
      let inv = Reaches-Inv lib envs env binder fuel s draws bytes c ready none_held reach in
      let (still, free) =
        Reaches-Fit lib envs env binder fuel s draws bytes c ready none_held other bound reach in
      let (r, leads, loops) =
        settle (Serves lib envs env binder fuel s draws bytes) (held_by HasClient idle_at)
          (program lib envs env binder fuel s)
          (program-IsAccounted lib envs env binder fuel s draws bytes) env binder []
          t.servers.goroutines t.servers refl tt free
          (serving_at lib envs env binder fuel s draws bytes inv still) in
      let reached = reaches_on lib envs env binder fuel s draws bytes c t leads reach in
      (
        r,
        leads,
        reached,
        loops,
        Inv-IsLegal lib envs env binder fuel s draws bytes c (record t { servers = r })
            (Reaches-Inv lib envs env binder fuel s draws bytes c ready none_held reached),
      )
