-- ===== src/Command/Wiring/Goroutines.antt =====
-- cmd/dotproxy/main.go: the whole program among all its goroutines. Beside those of the servers there are
-- the loops that fill the pools, the goroutines of the handler that close or destroy a connection, and
-- those that count the calls of a client.
use dotproxy.Base.{ℕ, suc, ◌<◌, ◌≡◌, List, [], ◌∷◌, ◌++◌, Option, none, some, get_elem?}
use dotproxy.Base.Run.{ok}
use dotproxy.Network.World.{NetConn, Error, World, Env}
use dotproxy.Network.Trace.{count, releases, discards}
use dotproxy.Network.Pool.{
  Pool, PersistentConn, new_persistent_conn, close, destroy, prefill_one, rounds,
}
use dotproxy.Network.Pool.Filling.{refused}
use dotproxy.Network.Client.{settle}
use dotproxy.Network.Ledger.Child.{set_client}
use dotproxy.Metrics.{ConnectionLifecycleHook}
use dotproxy.Network.Server.Listening.{Binder}
use dotproxy.Network.Server.Running
use dotproxy.Network.Server.Running.{Running, running}
use dotproxy.Network.Sharding.Availability.{update}
use dotproxy.Network.Sharding.Policy.{ShardedClient, clients_of}
use dotproxy.Meta.Config.{Text}
use dotproxy.Network.Dialer.{TlsClientOpts, TlsConfig}
use dotproxy.Command.{Libraries, Upstream, Service, go_servers}
use dotproxy.Command.Wiring.Program.{program}

-- `unfilled` has the rounds that the loop that fills each pool has left; `given_back` and `destroyed` have
-- the connections of the handler's goroutines that have run; and `lost` has what a full pool refused while
-- it was filled.
pub record Whole (K : Type 0) : Type 0 where
  pub servers : Running (ShardedClient Upstream) (ConnectionLifecycleHook K)
  pub unfilled : ℕ → ℕ
  pub given_back : List NetConn
  pub destroyed : List NetConn
  pub lost : List NetConn

abbrev pub with_pool : Upstream → Pool → Upstream
with_pool u p = record u { client = record u.client { pool = p } }

-- The client at place `i` changes, and the trace.
abbrev pub with_client :
    {K : Type 0}
    → Running (ShardedClient Upstream) K
    → ℕ
    → Upstream
    → World
    → Running (ShardedClient Upstream) K
with_client r i u w = record r { handler = set_client r.handler i u; world = w }

abbrev pub rounds_of : Env → Option Upstream → ℕ
rounds_of env none = 0
rounds_of env (some u) = rounds env u.opts.pool_opts.capacity

module _ {F K : Type 0} (lib : Libraries F K) (envs : Text → TlsConfig → TlsClientOpts → Env)
    (env : Env) (binder : Binder) (fuel : ℕ) (s : Service K) where
  abbrev pub env_of : Upstream → Env
  env_of u = envs u.address u.config u.opts

  -- Any goroutine has its turn: one of the servers; the goroutine of a connection that the handler has handed
  -- over to be closed or destroyed; the loop that fills the pool of the client at place `i`; or one
  -- that counts a call of that client. A connection may go back to any of the pools, its own among them.
  pub data Step (t : Whole K) : Whole K → Type 0 where
    serves :
        {r : Running (ShardedClient Upstream) (ConnectionLifecycleHook K)}
        → Running.Step (program lib envs env binder fuel s) env binder t.servers (running r)
        → Step t (record t { servers = r })
    gives_back :
        (c : NetConn) (i : ℕ) (u : Upstream) {p : Pool} {e : Option Error} {w : World}
        → count c t.given_back < releases c t.servers.world
        → get_elem? (clients_of t.servers.handler) i ≡ some u
        → close (env_of u) u.client.pool (new_persistent_conn c) t.servers.world ≡ ok ((p, e), w)
        → Step t (record t {
          servers = with_client t.servers i (with_pool u p) w;
          given_back = c ∷ t.given_back;
        })
    destroys :
        (c : NetConn) (i : ℕ) (u : Upstream) {pc : PersistentConn} {p : Pool} {e : Option Error}
        {w : World}
        → count c t.destroyed < discards c t.servers.world
        → get_elem? (clients_of t.servers.handler) i ≡ some u
        → destroy (env_of u) u.client.pool (new_persistent_conn c) t.servers.world
          ≡ ok ((pc, p, e), w)
        → Step t (record t {
          servers = with_client t.servers i (with_pool u p) w;
          destroyed = c ∷ t.destroyed;
        })
    fills :
        (i k : ℕ) (u : Upstream) {p : Pool} {w : World}
        → t.unfilled i ≡ suc k
        → get_elem? (clients_of t.servers.handler) i ≡ some u
        → prefill_one (env_of u) u.client.pool t.servers.world ≡ ok (p, w)
        → Step t (record t {
          servers = with_client t.servers i (with_pool u p) w;
          unfilled = update t.unfilled i k;
          lost = refused u.client.pool ((env_of u).dial t.servers.world) ++ t.lost;
        })
    counts :
        (i : ℕ) (u : Upstream)
        → get_elem? (clients_of t.servers.handler) i ≡ some u
        → Step t (record t {
          servers = with_client t.servers i (record u { client = settle u.client }) t.servers.world;
        })

  -- From where main has started its goroutines, over the client `c`.
  pub data Reaches (c : ShardedClient Upstream) : Whole K → Type 0 where
    begins : Reaches c (record {
      servers = record { handler = c; goroutines = go_servers s; world = [] };
      unfilled = λ i. rounds_of env (get_elem? (clients_of c) i);
      given_back = [];
      destroyed = [];
      lost = [];
    })
    later : {t t' : Whole K} → Reaches c t → Step t t' → Reaches c t'
