-- ===== src/Network/Pool.antt =====
-- internal/network/persistent.go: connections that go back to a pool in place of being closed. The
-- environment's `dial` is the pool's dialer. A method returns the pool that it leaves.
pub mod Ownership
pub mod Filling
pub mod System
pub mod Marks
pub mod Source
pub mod Reported
use dotproxy.Base.{
  ℕ, zero, suc, ◌≡◌, Bool, true, false, List, [], Option, none, some, if◌then◌else◌,
}
use dotproxy.Base.Int.{ℤ, pos, negsuc, ltb_ℤ, leb_ℤ}
use dotproxy.Base.Time.{Time, Duration, since}
use dotproxy.Base.Run.{panic}
use dotproxy.Data.Mru
use dotproxy.Data.Mru.{MruQueue}
use dotproxy.Network.World.{
  NetConn, Error, Outcome, done, fail, connection_open, connection_close, connection_error, Env, M,
  pure, ◌>>=◌, ◌>>◌, lift, emit, now, dial, close_conn, go_close,
}

pub record Pool : Type 0 where
  pub stale_timeout : Duration
  pub conns : MruQueue NetConn

pub record PoolOpts : Type 0 where
  pub capacity : ℤ
  pub stale_timeout : Duration

-- The closer of a PersistentConn is a method of the pool that made it, which is passed to it here.
pub record PersistentConn : Type 0 where
  pub conn : NetConn
  pub destroyed : Bool

abbrev pub new_persistent_conn : NetConn → PersistentConn
new_persistent_conn c = record { conn = c; destroyed = false }

-- A new pool. The loop that fills it runs beside its users: its rounds are steps of their own.
unfoldable pub new_pool : PoolOpts → M Pool
new_pool opts = do
  conns ← lift (Mru.new_mru_queue opts.capacity)
  pure (record { stale_timeout = opts.stale_timeout; conns = conns })

module _ (env : Env) where
  -- One round of the loop that fills a new pool in the background. The result of Push is dropped.
  unfoldable pub prefill_one : Pool → M Pool
  prefill_one p = do
    r ← dial env
    elim r [
      | fail e ↦ do emit connection_error; pure p
      | done c ↦ do
        emit (connection_open c)
        t ← now env
        pushed ← lift (Mru.push p.conns t c)
        pure (record p { conns = pushed.0 })
    ]

  prefill_loop : ℕ → Pool → M Pool
  prefill_loop zero p = pure p
  prefill_loop (suc n) p = prefill_one p >>= prefill_loop n

  -- A loop up to a capacity of 0 or less has no rounds.
  abbrev pub rounds : ℤ → ℕ
  rounds (pos n) = n
  rounds (negsuc n) = 0

  -- The loop that fills a new pool, if nothing comes between its rounds.
  unfoldable pub prefill : PoolOpts → Pool → M Pool
  unfolding prefill_loop
  prefill opts p = prefill_loop (rounds opts.capacity) p

  -- `p.staleTimeout <= 0 || time.Since(timestamp) < p.staleTimeout`
  unfoldable pub is_usable : Pool → Time → M Bool
  is_usable p t =
      if leb_ℤ p.stale_timeout (pos 0)
      then pure true
      else (now env >>= λ n. pure (ltb_ℤ (since n t) p.stale_timeout))

  unfoldable pub open_conn : Pool → M (Pool × Outcome PersistentConn)
  open_conn p = do
    r ← dial env
    elim r [
      | fail e ↦ do emit connection_error; pure (p, fail e)
      | done c ↦ do emit (connection_open c); pure (p, done (new_persistent_conn c))
    ]

  -- The type assertion on what Pop found panics on nil.
  unfoldable pub use_cached : Pool → Option NetConn → Time → M (Pool × Outcome PersistentConn)
  use_cached p none t = lift panic
  use_cached p (some c) t = do
    usable ← is_usable p t
    if usable
        then pure (p, done (new_persistent_conn c))
        else do emit (connection_close c); go_close c; open_conn p

  unfoldable pub conn : Pool → M (Pool × Outcome PersistentConn)
  conn p = do
    r ← lift (Mru.pop p.conns)
    let q = record p { conns = r.0 }
    if r.1.found then use_cached q r.1.value r.1.time else open_conn q

  unfoldable pub size : Pool → ℕ
  size p = Mru.size p.conns

  unfoldable pub put : Pool → NetConn → M (Pool × Option Error)
  put p c = do
    t ← now env
    pushed ← lift (Mru.push p.conns t c)
    let q = record p { conns = pushed.0 }
    if pushed.1 then pure (q, none) else (close_conn env c >>= λ e. pure (q, e))

  -- PersistentConn.Close
  unfoldable pub close : Pool → PersistentConn → M (Pool × Option Error)
  close p pc =
      if pc.destroyed
      then (do emit (connection_close pc.conn); e ← close_conn env pc.conn; pure (p, e))
      else put p pc.conn

  -- PersistentConn.Destroy: the connection is marked, then closed.
  unfoldable pub destroy : Pool → PersistentConn → M (PersistentConn × Pool × Option Error)
  destroy p pc = do
    let marked = record pc { destroyed = true }
    r ← close p marked
    pure (marked, r.0, r.1)
