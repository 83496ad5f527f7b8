-- ===== src/Network/Pool/System.antt =====
-- The pool among its users: requests, closes and the loop that fills the pool, in any order.
use dotproxy.Base.{◌+◌, ◌≤◌, ◌<◌, ◌≡◌, List, [], ◌∷◌, ◌++◌, Perm, Option, arith}
use dotproxy.Base.Run.{ok, Returns, Returns-at}
use dotproxy.Data.Mru.Laws.{new_mru_queue-IsValid}
use dotproxy.Network.World.{NetConn, Error, Outcome, Env, World}
use dotproxy.Network.Trace.{count, count-append, opens, closes, count-perm}
use dotproxy.Network.Pool.{
  Pool, PoolOpts, PersistentConn, new_persistent_conn, new_pool, conn, close, destroy, prefill_one,
}
use dotproxy.Network.Pool.Filling.{refused, prefill_one-Filled}
use dotproxy.Network.Pool.Ownership.{
  idle, IsValid, lent, conn-Lent, close-Balanced, destroy-Balanced,
}

-- A pool, the connections that its users hold, those that the filling loop has refused, and the
-- trace.
pub record System : Type 0 where
  pub pool : Pool
  pub leased : List NetConn
  pub lost : List NetConn
  pub world : World

-- A user asks for a connection, gives one back, or destroys it; or the pool is filled by one more.
pub data Step (env : Env) (s : System) : System → Type 0 where
  request :
      {p : Pool} {r : Outcome PersistentConn} {w : World}
      → conn env s.pool s.world ≡ ok ((p, r), w)
      → Step env s (record s { pool = p; leased = lent r ++ s.leased; world = w })
  give_back :
      (c : NetConn) (rest : List NetConn) {p : Pool} {e : Option Error} {w : World}
      → Perm s.leased (c ∷ rest)
      → close env s.pool (new_persistent_conn c) s.world ≡ ok ((p, e), w)
      → Step env s (record s { pool = p; leased = rest; world = w })
  discard :
      (c : NetConn) (rest : List NetConn) {pc : PersistentConn} {p : Pool} {e : Option Error}
      {w : World}
      → Perm s.leased (c ∷ rest)
      → destroy env s.pool (new_persistent_conn c) s.world ≡ ok ((pc, p, e), w)
      → Step env s (record s { pool = p; leased = rest; world = w })
  fill :
      {p : Pool} {w : World}
      → prefill_one env s.pool s.world ≡ ok (p, w)
      → Step env s
          (record s { pool = p; lost = refused s.pool (env.dial s.world) ++ s.lost; world = w })

pub data Reach (env : Env) (opts : PoolOpts) : System → Type 0 where
  start :
      {p : Pool} {w : World}
      → new_pool opts [] ≡ ok (p, w)
      → Reach env opts (record { pool = p; leased = []; lost = []; world = w })
  later : {s t : System} → Reach env opts s → Step env s t → Reach env opts t

-- Every connection that was dialed is idle, leased, lost or closed, as often as it was dialed.
pub record Inv (s : System) : Type 0 where
  pub valid : IsValid s.pool
  pub accounted :
      (c : NetConn)
      → count c (idle s.pool) + count c s.leased + count c s.lost + closes c s.world
        ≡ opens c s.world

pub Step-Inv : {env : Env} {s t : System} → Step env s t → Inv s → Inv t
Step-Inv {env} {s} (request e) v =
    let (valid, b) = Returns-at _ (conn-Lent env s.pool s.world v.valid) e in
    record {
      valid = valid;
      accounted = λ c. omega (arith, b c, v.accounted c, count-append c (lent _) s.leased);
    }
Step-Inv {env} {s} (give_back c rest same e) v =
    let (valid, b) = Returns-at _ (close-Balanced env s.pool _ s.world v.valid) e in
    record { valid = valid; accounted = λ d. omega (arith, b d, v.accounted d, count-perm d same) }
Step-Inv {env} {s} (discard c rest same e) v =
    let (kept, _, _, b) = Returns-at _ (destroy-Balanced env s.pool _ s.world) e in
    record {
      valid = rw kept v.valid;
      accounted = λ d. omega (arith, b d, v.accounted d, count-perm d same);
    }
Step-Inv {env} {s} (fill e) v =
    let (valid, b) = Returns-at _ (prefill_one-Filled env s.pool s.world v.valid) e in
    record {
      valid = valid;
      accounted = λ c.
          omega
            (arith, b c, v.accounted c, count-append c (refused s.pool (env.dial s.world)) s.lost);
    }

new_pool-Inv :
    (opts : PoolOpts)
    → Returns
        (λ r. Inv (record { pool = r.0; leased = []; lost = []; world = r.1 }))
        (new_pool opts [])
unfolding new_pool
new_pool-Inv opts =
    let (m, e, (valid, none_held, _)) = new_mru_queue-IsValid {A = NetConn} opts.capacity in
    let p : Pool = record { stale_timeout = opts.stale_timeout; conns = m } in
    ((p, []), rw e, record { valid = valid; accounted = λ c. rw none_held (omega arith) })

-- In every state that requests, closes, destructions and rounds of the filling loop reach from a
-- new pool, in any order, the pool is valid, and every connection is idle, leased, lost or closed
-- exactly as often as it was dialed.
pub Reach-Inv : {env : Env} {opts : PoolOpts} {s : System} → Reach env opts s → Inv s
Reach-Inv {opts} (start e) = Returns-at _ (new_pool-Inv opts) e
Reach-Inv (later r st) = Step-Inv st (Reach-Inv r)

-- In a reachable state, a connection that was dialed once at most and is leased is leased to one
-- user only, is not in the pool, and has not been closed.
pub lent_once :
    {env : Env} {opts : PoolOpts} {s : System} (c : NetConn)
    → Reach env opts s
    → opens c s.world ≤ 1
    → 0 < count c s.leased
    → (count c s.leased ≡ 1) × (count c (idle s.pool) ≡ 0) × (closes c s.world ≡ 0)
lent_once {s} c r once held_now = omega (arith, (Reach-Inv r).accounted c)

-- In every reachable state a request for a connection ends, with a valid pool.
pub Reach-conn :
    {env : Env} {opts : PoolOpts} {s : System}
    → Reach env opts s
    → Returns (λ r. IsValid r.0.0) (conn env s.pool s.world)
Reach-conn {env} {s} r =
    let (a, e, p) = conn-Lent env s.pool s.world (Reach-Inv r).valid in (a, e, p.0)
