-- ===== src/Command/Wiring/Balance.antt =====
-- cmd/dotproxy/main.go: every connection of the whole program, from one step to the next.
use dotproxy.Base.{
  ℕ, ◌+◌, ◌≡◌, refl, sym, ap, ◌∙◌, subst, List, Mem, some, All, All-get_elem?, arith, get_elem?,
}
use dotproxy.Base.Run.{Returns-at, IfEnds-at}
use dotproxy.Network.World.{NetConn, World, Env}
use dotproxy.Network.Ledger.Sharded.{held_by}
use dotproxy.Network.Ledger.Child.{count-set_client, IsReady-set_client, IsReady-All}
use dotproxy.Network.Trace.{count, count-append, opens, closes, marks}
use dotproxy.Network.Pool.Ownership.{idle, close-Balanced, destroy-Balanced}
use dotproxy.Network.Pool.Filling.{refused, prefill_one-Filled}
use dotproxy.Network.Pool.Marks.{Unmarked, close-Unmarked, destroy-Unmarked, prefill_one-Unmarked}
use dotproxy.Network.Client.{settle}
use dotproxy.Network.Client.Counts.{pool-settle}
use dotproxy.Network.Server.{ServerHandler}
use dotproxy.Metrics.{ConnectionLifecycleHook}
use dotproxy.Network.Server.System
use dotproxy.Network.Server.System.{System, Step-Accounts}
use dotproxy.Network.Server.Listening.{
  Binder, Goroutine, connections, udp_loops_of, tcp_loops_of, total, starting_udp, starting_tcp,
}
use dotproxy.Network.Server.Running.Approximation.{Step-below}
use dotproxy.Network.Server.Running.Progress.{IsOf, Step-kept, Step-IsOf}
use dotproxy.Network.Sharding.Policy.{ShardedClient, clients_of, IsReady}
use dotproxy.Network.Sharding.Availability.Select.{DrawsBelow}
use dotproxy.Protocol.DnsProxy.Transact.{ReadsBytes}
use dotproxy.Protocol.DnsProxy.Service.{ended_proxy, ended_proxy-IsAccounted, ended_proxy-IsBelow}
use dotproxy.Meta.Config.{Text}
use dotproxy.Network.Dialer.{TlsClientOpts, TlsConfig}
use dotproxy.Command.{Libraries, Upstream, Service, go_servers}
use dotproxy.Command.Wiring.{upstream_client}
use dotproxy.Command.Wiring.Program.{HasClient, idle_at, upstream_client-IsAccounted, program}
use dotproxy.Command.Wiring.Goroutines.{
  Whole, with_client, with_pool, Step, serves, gives_back, destroys, fills, counts,
}

-- Each connection was opened as often as it awaits its goroutine, is in a pool, was refused by a full pool that
-- was being filled, was closed, or is handed over to a goroutine that has not run yet. The trace marks every
-- hand-over; those whose goroutine has run are taken off by standing on the other side.
abbrev pub IsBalanced : {K : Type 0} → Whole K → Type 0
IsBalanced t =
    (x : NetConn)
    → count x (connections t.servers.goroutines)
        + count x (held_by HasClient idle_at t.servers.handler)
        + count x t.lost
        + closes x t.servers.world
        + marks x t.servers.world
      ≡ opens x t.servers.world + count x t.given_back + count x t.destroyed

module _ {F K : Type 0} (lib : Libraries F K) (envs : Text → TlsConfig → TlsClientOpts → Env)
    (env : Env) (binder : Binder) (fuel : ℕ) (s : Service K) (draws : DrawsBelow env)
    (bytes : ReadsBytes env) where
  abbrev pub proxy : ServerHandler (ShardedClient Upstream)
  proxy =
      ended_proxy HasClient idle_at (upstream_client envs) (upstream_client-IsAccounted envs) env
        fuel s.max_upstream_retries draws bytes

  abbrev pub Ready : ShardedClient Upstream → Type 0
  Ready = IsReady (upstream_client envs) env HasClient

  abbrev pub held : ShardedClient Upstream → List NetConn
  held = held_by HasClient idle_at

  pub proxy-IsAccounted : System.IsAccounted Ready held proxy
  proxy-IsAccounted =
      ended_proxy-IsAccounted HasClient idle_at (upstream_client envs)
        (upstream_client-IsAccounted envs) env fuel s.max_upstream_retries draws bytes

  -- A server that is still to listen is one of those that main has made.
  abbrev pub IsMains : Goroutine (ConnectionLifecycleHook K) → Type 0
  IsMains =
      IsOf (λ u. Mem (starting_udp u) (go_servers s)) (λ u. Mem (starting_tcp u) (go_servers s))

  pub record Inv (t : Whole K) : Type 0 where
    pub ready : Ready t.servers.handler
    pub balanced : IsBalanced t
    pub udp_loops : total udp_loops_of t.servers.goroutines ≡ total udp_loops_of (go_servers s)
    pub tcp_loops : total tcp_loops_of t.servers.goroutines ≡ total tcp_loops_of (go_servers s)
    pub mains : All IsMains t.servers.goroutines

  -- What the turns of the servers keep, beside the goroutines of `t` that are not theirs.
  abbrev pub Kept : Whole K → System (ShardedClient Upstream) → Type 0
  Kept t sys =
      Ready sys.handler
      × ((x : NetConn)
          → count x sys.serving
              + count x (held sys.handler)
              + count x t.lost
              + closes x sys.world
              + marks x sys.world
            ≡ opens x sys.world + count x t.given_back + count x t.destroyed)

  pub Kept-step :
      (t : Whole K) (a b : System (ShardedClient Upstream))
      → System.Step proxy env a b
      → Kept t a
      → Kept t b
  Kept-step t a b step (v, balanced) =
      let (v', acc) = Step-Accounts Ready held proxy proxy-IsAccounted env step v in
      (
        v',
        λ x. omega (
          arith,
          acc x,
          balanced x,
          count-append x a.serving (held a.handler),
          count-append x b.serving (held b.handler),
        ),
      )

  -- The client at place `i` gets a new state, by which it holds as many more connections, or as many
  -- fewer, as the others account for.
  placed :
      (t t' : Whole K) (i : ℕ) (u u' : Upstream) (w : World)
      → get_elem? (clients_of t.servers.handler) i ≡ some u
      → t'.servers ≡ with_client t.servers i u' w
      → HasClient u'
      → ((x : NetConn)
          → count x (idle_at u')
              + count x t'.lost
              + closes x w
              + marks x w
              + opens x t.servers.world
              + count x t.given_back
              + count x t.destroyed
            ≡ count x (idle_at u)
              + count x t.lost
              + closes x t.servers.world
              + marks x t.servers.world
              + opens x w
              + count x t'.given_back
              + count x t'.destroyed)
      → Inv t
      → Inv t'
  placed t t' i u u' w at same v moved inv = record {
    ready =
        subst (λ r. Ready r.handler) (sym same)
          (IsReady-set_client (upstream_client envs) env HasClient t.servers.handler i u' inv.ready
            v);
    balanced = λ x.
        subst
          (λ r.
            count x (connections r.goroutines)
              + count x (held r.handler)
              + count x t'.lost
              + closes x r.world
              + marks x r.world
            ≡ opens x r.world + count x t'.given_back + count x t'.destroyed)
          (sym same)
          (omega (
            arith,
            moved x,
            inv.balanced x,
            count-set_client HasClient idle_at t.servers.handler i u u' x at,
          ));
    udp_loops = ap (λ r. total udp_loops_of r.goroutines) same ∙ inv.udp_loops;
    tcp_loops = ap (λ r. total tcp_loops_of r.goroutines) same ∙ inv.tcp_loops;
    mains = subst (λ r. All IsMains r.goroutines) (sym same) inv.mains;
  }

  pub valid_at :
      {t : Whole K} (i : ℕ) {u : Upstream}
      → Inv t
      → get_elem? (clients_of t.servers.handler) i ≡ some u
      → HasClient u
  valid_at {t} i {u} inv at =
      All-get_elem? HasClient (clients_of t.servers.handler) i u
        (IsReady-All (upstream_client envs) env HasClient t.servers.handler inv.ready) at

  pub Step-Inv : {t t' : Whole K} → Step lib envs env binder fuel s t t' → Inv t → Inv t'
  Step-Inv {t} (serves {r} step) inv =
      let below =
        Step-below (program lib envs env binder fuel s) proxy
          (ended_proxy-IsBelow HasClient idle_at (upstream_client envs)
            (upstream_client-IsAccounted envs) env fuel s.max_upstream_retries draws bytes)
          env binder step in
      let ((v, balanced), udp, tcp) =
        Step-kept Ready held proxy proxy-IsAccounted env binder (Kept t) (Kept-step t) inv.ready
          (inv.ready, inv.balanced) below in
      record {
        ready = v;
        balanced = balanced;
        udp_loops = udp ∙ inv.udp_loops;
        tcp_loops = tcp ∙ inv.tcp_loops;
        mains =
            Step-IsOf Ready held proxy proxy-IsAccounted env binder (Kept t) (Kept-step t)
              (λ u. Mem (starting_udp u) (go_servers s)) (λ u. Mem (starting_tcp u) (go_servers s))
              inv.ready inv.mains below;
      }
  Step-Inv {t} (gives_back c i u {p} {e} {w} waits at closing) inv =
      let here = envs u.address u.config u.opts in
      let (v, b) = Returns-at _ (close-Balanced here _ _ _ (valid_at i inv at)) closing in
      placed t _ i u (with_pool u p) w at refl v
        (λ x. omega (
          arith,
          b x,
          IfEnds-at (Unmarked here x t.servers.world) (close-Unmarked here x _ _ _) closing,
        ))
        inv
  Step-Inv {t} (destroys c i u {pc} {p} {e} {w} waits at closing) inv =
      let here = envs u.address u.config u.opts in
      let (same, _, _, b) = Returns-at _ (destroy-Balanced here _ _ _) closing in
      placed t _ i u (with_pool u p) w at refl (rw same (valid_at i inv at))
        (λ x. omega (
          arith,
          b x,
          IfEnds-at (Unmarked here x t.servers.world) (destroy-Unmarked here x _ _ _) closing,
        ))
        inv
  Step-Inv {t} (fills i k u {p} {w} left at filled) inv =
      let here = envs u.address u.config u.opts in
      let (v, b) = Returns-at _ (prefill_one-Filled here _ _ (valid_at i inv at)) filled in
      placed t _ i u (with_pool u p) w at refl v
        (λ x. omega (
          arith,
          b x,
          count-append x (refused u.client.pool (here.dial t.servers.world)) t.lost,
          IfEnds-at (Unmarked here x t.servers.world) (prefill_one-Unmarked here x _ _) filled,
        ))
        inv
  Step-Inv {t} (counts i u at) inv =
      placed t _ i u (record u { client = settle u.client }) t.servers.world at refl
        (rw (pool-settle u.client) (valid_at i inv at))
        (λ x. omega (arith, ap (λ q. count x (idle q)) (pool-settle u.client))) inv
