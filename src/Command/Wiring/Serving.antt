-- ===== src/Command/Wiring/Serving.antt =====
-- cmd/dotproxy/main.go: the whole program, as it runs.
use dotproxy.Base.{
  ℕ, ◌≡◌, refl, subst, ap, [], ◌∷◌, none, some, Mem, All, append-All, arith, get_elem?,
}
use dotproxy.Base.Run.{ok, Returns, Returns-at, Returns-map}
use dotproxy.Network.World.{World, NetConn, done, Env}
use dotproxy.Network.Trace.{count}
use dotproxy.Network.Pool.{new_persistent_conn, close, destroy, prefill_one}
use dotproxy.Network.Pool.Ownership.{close-Balanced, destroy-Balanced}
use dotproxy.Network.Pool.Filling.{prefill_one-Filled}
use dotproxy.Metrics.{ConnectionLifecycleHook}
use dotproxy.Network.Server.Listening.{Binder, Goroutine, udp_loops_of, tcp_loops_of, total}
use dotproxy.Network.Server.Running
use dotproxy.Network.Server.Running.{Program, running, stopped_by, faulted, runs, stops, faults}
use dotproxy.Network.Server.Running.Steps.{IsUnbound}
use dotproxy.Network.Server.Running.Ends.{all_given, unbound-given}
use dotproxy.Network.Server.Running.Approximation.{Step-below}
use dotproxy.Network.Server.Running.Progress.{Turned-at}
use dotproxy.Network.Sharding.Policy.{ShardedClient, clients_of, IsReady}
use dotproxy.Network.Sharding.Availability.Select.{DrawsBelow}
use dotproxy.Protocol.DnsProxy.Transact.{ReadsBytes}
use dotproxy.Protocol.DnsProxy.Service.{ended_proxy-IsBelow}
use dotproxy.Meta.Config.{Text}
use dotproxy.Meta.Config.Parsing.{Holds}
use dotproxy.Network.Dialer.{TlsClientOpts, TlsConfig}
use dotproxy.Command.{Libraries, Flags, Upstream, Service, serving, main, go_servers}
use dotproxy.Command.Wiring.{upstream_client}
use dotproxy.Command.Wiring.Program.{
  HasClient, idle_at, upstream_client-IsAccounted, connections-go_servers, program, begins,
}
use dotproxy.Command.Wiring.Goroutines
use dotproxy.Command.Wiring.Goroutines.{Whole, env_of, Reaches}
use dotproxy.Command.Wiring.Balance.{
  IsBalanced, proxy, Ready, held, proxy-IsAccounted, IsMains, Inv, Kept, Kept-step, valid_at,
  Step-Inv,
}

module _ {F K : Type 0} (lib : Libraries F K) (envs : Text → TlsConfig → TlsClientOpts → Env)
    (env : Env) (binder : Binder) (fuel : ℕ) (s : Service K) where
  -- After a turn of the servers the program runs, or it is stopped by the error of one of the servers that
  -- main has made, whose address is not bound.
  abbrev pub IsSafe : Program (ShardedClient Upstream) (ConnectionLifecycleHook K) → Type 0
  IsSafe (running r) = Unit
  IsSafe (stopped_by e) =
      (g : Goroutine (ConnectionLifecycleHook K)) × Mem g (go_servers s) × IsUnbound binder e g
  IsSafe faulted = ⊥

  -- What the goroutines of the pool of `u` do, they do to the end.
  abbrev pub Ends : Upstream → World → Type 0
  Ends u w =
      ((c : NetConn)
        → Returns (λ r. Unit)
            (close (envs u.address u.config u.opts) u.client.pool (new_persistent_conn c) w)
          × Returns (λ r. Unit)
              (destroy (envs u.address u.config u.opts) u.client.pool (new_persistent_conn c) w))
      × Returns (λ r. Unit) (prefill_one (envs u.address u.config u.opts) u.client.pool w)

  -- It has the UDP and TCP loops, or the servers that will start them, that main asked for; its
  -- client is ready; each connection is somewhere; and no goroutine faults.
  pub record IsLegal (t : Whole K) : Type 0 where
    pub udp_loops : total udp_loops_of t.servers.goroutines ≡ total udp_loops_of (go_servers s)
    pub tcp_loops : total tcp_loops_of t.servers.goroutines ≡ total tcp_loops_of (go_servers s)
    pub ready : IsReady (upstream_client envs) env HasClient t.servers.handler
    pub balanced : IsBalanced t
    pub safe :
        (p : Program (ShardedClient Upstream) (ConnectionLifecycleHook K))
        → Running.Step (program lib envs env binder fuel s) env binder t.servers p
        → IsSafe p
    pub ends :
        (i : ℕ) (u : Upstream)
        → get_elem? (clients_of t.servers.handler) i ≡ some u
        → Ends u t.servers.world

  module _ (draws : DrawsBelow env) (bytes : ReadsBytes env) where
    Step-IsSafe :
        {t : Whole K} {p : Program (ShardedClient Upstream) (ConnectionLifecycleHook K)}
        → ShardedClient Upstream
        → Inv lib envs env binder fuel s draws bytes t
        → Running.Step (proxy lib envs env binder fuel s draws bytes) env binder t.servers p
        → IsSafe p
    Step-IsSafe {t} c inv (runs fresh before after g at_g out) = tt
    Step-IsSafe {t} c inv (stops fresh before after g {e} at_g out) =
        let bad =
          Returns-at _
            (Turned-at (Ready lib envs env binder fuel s draws bytes)
              (held lib envs env binder fuel s draws bytes)
              (proxy lib envs env binder fuel s draws bytes)
              (proxy-IsAccounted lib envs env binder fuel s draws bytes) env binder
              (Kept lib envs env binder fuel s draws bytes t)
              (Kept-step lib envs env binder fuel s draws bytes t) t.servers fresh g inv.ready)
            out in
        let here =
          (append-All (IsMains lib envs env binder fuel s draws bytes) before (g ∷ after)
            (subst (All (IsMains lib envs env binder fuel s draws bytes)) at_g inv.mains)).1.0 in
        (
          g,
          unbound-given (Ready lib envs env binder fuel s draws bytes)
              (held lib envs env binder fuel s draws bytes)
              (proxy lib envs env binder fuel s draws bytes)
              (proxy-IsAccounted lib envs env binder fuel s draws bytes) env binder c (go_servers s)
              (connections-go_servers s) e g bad here,
          bad,
        )
    Step-IsSafe {t} c inv (faults fresh before after g at_g out) =
        let (_, ends, _) =
          Turned-at (Ready lib envs env binder fuel s draws bytes)
            (held lib envs env binder fuel s draws bytes)
            (proxy lib envs env binder fuel s draws bytes)
            (proxy-IsAccounted lib envs env binder fuel s draws bytes) env binder
            (Kept lib envs env binder fuel s draws bytes t)
            (Kept-step lib envs env binder fuel s draws bytes t) t.servers fresh g inv.ready in
        cc

    pub Inv-IsLegal :
        (c : ShardedClient Upstream) (t : Whole K)
        → Inv lib envs env binder fuel s draws bytes t
        → IsLegal t
    Inv-IsLegal c t inv = record {
      udp_loops = inv.udp_loops;
      tcp_loops = inv.tcp_loops;
      ready = inv.ready;
      balanced = inv.balanced;
      safe = λ p step. Step-IsSafe c inv (
          Step-below (program lib envs env binder fuel s)
            (proxy lib envs env binder fuel s draws bytes)
            (ended_proxy-IsBelow HasClient idle_at (upstream_client envs)
              (upstream_client-IsAccounted envs) env fuel s.max_upstream_retries draws bytes)
            env binder step);
      ends = λ i u at.
          let here = envs u.address u.config u.opts in
          let v = valid_at lib envs env binder fuel s draws bytes i inv at in
          (
            λ c. (
              Returns-map
                  (close-Balanced here u.client.pool (new_persistent_conn c) t.servers.world v)
                  (λ r h. tt),
              Returns-map
                  (destroy-Balanced here u.client.pool (new_persistent_conn c) t.servers.world)
                  (λ r h. tt),
            ),
            Returns-map (prefill_one-Filled here u.client.pool t.servers.world v) (λ r h. tt),
          );
    }

    pub Reaches-Inv :
        (c : ShardedClient Upstream) {t : Whole K}
        → IsReady (upstream_client envs) env HasClient c
        → held lib envs env binder fuel s draws bytes c ≡ []
        → Reaches lib envs env binder fuel s c t
        → Inv lib envs env binder fuel s draws bytes t
    Reaches-Inv c ready none_held Goroutines.begins = record {
      ready = ready;
      balanced =
          λ x. omega (arith, ap (count x) none_held, ap (count x) (connections-go_servers s));
      udp_loops = refl;
      tcp_loops = refl;
      mains =
          all_given (Ready lib envs env binder fuel s draws bytes)
            (held lib envs env binder fuel s draws bytes)
            (proxy lib envs env binder fuel s draws bytes)
            (proxy-IsAccounted lib envs env binder fuel s draws bytes) env binder c (go_servers s)
            (connections-go_servers s) (go_servers s) (λ g m. m);
    }
    Reaches-Inv c ready none_held (Goroutines.later reach step) =
        Step-Inv lib envs env binder fuel s draws bytes step (Reaches-Inv c ready none_held reach)

module _ {F K : Type 0} (lib : Libraries F K) (envs : Text → TlsConfig → TlsClientOpts → Env)
    (env : Env) (binder : Binder) where
  -- The whole program, under every policy. If main starts to serve from a configuration whose document is
  -- not nil, with draws in range and Reads that store bytes, then whatever its goroutines do, in any
  -- order, those that fill the pools, count, close and destroy included: it has the UDP and TCP loops, or the
  -- servers that will start them, that main asked for, and its client is ready; each connection was opened
  -- as often as it awaits its goroutine, is in a pool, was refused by a full pool that was being filled,
  -- was closed, or is handed over to a goroutine that has not run yet; a turn of the servers does not fault, and
  -- stops the program only by an error for which one of the servers could not bind its address; and a
  -- goroutine that fills a pool, or closes or destroys a connection, ends. A call that retries for ever
  -- under Availability is a turn that is not taken.
  pub main-IsLegal :
      (flags : Flags) (fuel : ℕ) (w w' : World) (s : Service K) (c : ShardedClient Upstream)
      {t : Whole K}
      → ¬ Holds lib.read_file lib.unmarshal flags.config_path none
      → main lib flags w ≡ ok (serving s, w')
      → s.client ≡ done c
      → DrawsBelow env
      → ReadsBytes env
      → Reaches lib envs env binder fuel s c t
      → IsLegal lib envs env binder fuel s t
  main-IsLegal flags fuel w w' s c {t} given starts made draws bytes reach =
      let (ready, none_held) = begins lib envs env binder flags w w' s c given starts made in
      Inv-IsLegal lib envs env binder fuel s draws bytes c t
        (Reaches-Inv lib envs env binder fuel s draws bytes c ready none_held reach)
