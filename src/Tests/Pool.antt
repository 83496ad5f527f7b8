-- ===== src/Tests/Pool.antt =====
-- A pool of one connection and its client, on which the theorems of `Network.Pool` and
-- `Network.Client` are run.
use dotproxy.Base.{ℕ, zero, suc, ◌≡◌, ◌≤◌, refl, [], ◌∷◌, some, arith, get_elem?}
use dotproxy.Base.Int.{pos}
use dotproxy.Base.Run.{ok, Returns}
use dotproxy.Data.Heap
use dotproxy.Data.PriorityQueue
use dotproxy.Data.PriorityQueue.{Item, heap_interface}
use dotproxy.Data.Mru
use dotproxy.Data.Mru.{MruQueue}
use dotproxy.Network.World.{NetConn, World, done, emitted, dialed, connection_open}
use dotproxy.Network.Trace.{count, opens, closes}
use dotproxy.Network.Pool.{
  Pool, PoolOpts, new_persistent_conn, new_pool, open_conn, conn, prefill_one, close,
}
use dotproxy.Network.Pool.Ownership.{idle, IsValid}
use dotproxy.Network.Pool.Source.{Source, conn-Source, full_pool_loses}
use dotproxy.Network.Pool.Reported.{
  reported_opens, reported_closes, Reach-Reported, full_pool_unreported,
}
use dotproxy.Network.Pool.System.{System, Step, Reach, Inv, Reach-Inv, lent_once}
use dotproxy.Network.Client.{TlsClient, tls_client}
use dotproxy.Network.Ledger.{IsAccounted}
use dotproxy.Network.Ledger.Tls.{HasPool, idle_of, tls_client-IsAccounted}
use dotproxy.Tests.Peers.{peers}

-- A pool of capacity 1 that holds the connection 5.
abbrev pub one_conn : Pool
one_conn = record {
  stale_timeout = pos 0;
  conns = record {
    store = record { value = 5; priority = pos 990; index = pos 0 } ∷ [];
    capacity = pos 1;
  };
}

pub one_conn-IsValid : IsValid one_conn
one_conn-IsValid = record {
  queue = record { indexed = indexed; heap = λ c p q _. absurd (omega arith) };
  bounded = λ _. omega arith;
}
  where
    indexed :
        (i : ℕ) (x : Item NetConn) → get_elem? (one_conn.conns.store) i ≡ some x → x.index ≡ pos i
    indexed zero x e = ground arith
    indexed (suc i) x e = absurd (cc)

conn-Source_example : Returns (Source peers one_conn []) (conn peers one_conn [])
conn-Source_example = conn-Source peers one_conn [] one_conn-IsValid

full_pool_loses_example :
    Returns
      (λ r. (r.0 ≡ one_conn) × (opens 7 r.1 ≡ 1) × ((d : NetConn) → closes d r.1 ≡ 0))
      (prefill_one peers one_conn [])
full_pool_loses_example =
    full_pool_loses peers one_conn 7 [] one_conn-IsValid (omega arith, refl) refl

abbrev pub one_client : TlsClient
one_client = record {
  pool = one_conn;
  stats = record { successful_connections = 2; failed_connections = 1 };
  pending = [];
}

-- A run: a new pool of capacity 1, and a request that dials.
abbrev opts : PoolOpts
opts = record { capacity = pos 1; stale_timeout = pos 0 }

abbrev no_conns : Pool
no_conns = record { stale_timeout = pos 0; conns = record { store = []; capacity = pos 1 } }

made : new_pool opts [] ≡ ok (no_conns, [])
unfolding new_pool Mru.new_mru_queue Heap.init heap_interface
made = refl

-- The trace of a dial.
abbrev dialed_world : World
dialed_world = emitted (connection_open 7) ∷ dialed (done 7) ∷ []

asked : conn peers no_conns [] ≡ ok ((no_conns, done (new_persistent_conn 7)), dialed_world)
unfolding conn Mru.pop PriorityQueue.len open_conn
asked = refl

abbrev one_leased : System
one_leased = record { pool = no_conns; leased = 7 ∷ []; lost = []; world = dialed_world }

one_leased-Reach : Reach peers opts one_leased
one_leased-Reach = Reach.later (Reach.start made) (Step.request asked)

Reach-Inv_example : Inv one_leased
Reach-Inv_example = Reach-Inv one_leased-Reach

Reach-Reported_example : (reported_opens 7 dialed_world ≡ 1) × (reported_closes 7 dialed_world ≤ 0)
Reach-Reported_example = Reach-Reported 7 one_leased-Reach

full_pool_unreported_example :
    Returns
      (λ r. (r.0.0 ≡ one_conn) × (closes 7 r.1 ≡ 1) × ((d : NetConn) → reported_closes d r.1 ≡ 0))
      (close peers one_conn (new_persistent_conn 7) [])
full_pool_unreported_example =
    full_pool_unreported peers one_conn 7 [] one_conn-IsValid (omega arith, refl)

lent_once_example :
    (count 7 (7 ∷ []) ≡ 1) × (count 7 (idle no_conns) ≡ 0) × (closes 7 dialed_world ≡ 0)
lent_once_example = lent_once 7 one_leased-Reach (omega arith) (omega arith)

tls_client-IsAccounted_example : IsAccounted HasPool idle_of (tls_client peers)
tls_client-IsAccounted_example = tls_client-IsAccounted peers
