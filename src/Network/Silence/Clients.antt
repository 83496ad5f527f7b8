-- ===== src/Network/Silence/Clients.antt =====
-- The clients write nothing when they are asked for a connection.
use dotproxy.Base.{refl, inl, inr, ◌∷◌, Option, none, some, Bool-cases}
use dotproxy.Base.Int.{pos, leb_ℤ, ltb_ℤ}
use dotproxy.Base.Time.{Time, since}
use dotproxy.Base.Run.{Run-cases}
use dotproxy.Network.World.{
  NetConn, Outcome-cases, World, Env, clock_read, closing, emitted, connection_close,
}
use dotproxy.Network.Pool
use dotproxy.Network.Pool.{Pool, PersistentConn}
use dotproxy.Network.Client.{tls_conn, tls_client}
use dotproxy.Network.Silence.{IsUnwritten, IsSilent}
use dotproxy.Base.Run.{IfEnds, IfEnds-at}
use dotproxy.Data.Mru

module _ (env : Env) where
  open_conn-IsUnwritten : (p : Pool) (w : World) → IfEnds (IsUnwritten w) (Pool.open_conn env p w)
  unfolding Pool.open_conn
  open_conn-IsUnwritten p w = elim (Outcome-cases (env.dial w)) [
    | inl (c, e) ↦ rw e refl
    | inr (x, e) ↦ rw e refl
  ]

  use_cached-IsUnwritten :
      (p : Pool) (c : Option NetConn) (t : Time) (w : World)
      → IfEnds (IsUnwritten w) (Pool.use_cached env p c t w)
  unfolding Pool.use_cached Pool.is_usable
  use_cached-IsUnwritten p none t w = tt
  use_cached-IsUnwritten p (some c) t w = elim (Bool-cases (leb_ℤ p.stale_timeout (pos 0))) [
    | inl always ↦ rw always refl
    | inr limited ↦ elim (Bool-cases (ltb_ℤ (since (env.clock w) t) p.stale_timeout)) [
      | inl fresh ↦ rw (limited, fresh) refl
      | inr stale ↦
          rw (limited, stale)
            (open_conn-IsUnwritten p
              (closing c ∷ emitted (connection_close c) ∷ clock_read (env.clock w) ∷ w))
    ]
  ]

  conn-IsUnwritten : (p : Pool) (w : World) → IfEnds (IsUnwritten w) (Pool.conn env p w)
  unfolding Pool.conn
  conn-IsUnwritten p w = elim (Run-cases (Mru.pop p.conns)) [
    | inr (inl e) ↦ rw e tt
    | inr (inr e) ↦ rw e tt
    | inl (r, e) ↦ elim (Bool-cases r.1.found) [
      | inl found ↦
          rw (e, found) (use_cached-IsUnwritten (record p { conns = r.0 }) r.1.value r.1.time w)
      | inr empty ↦ rw (e, empty) (open_conn-IsUnwritten (record p { conns = r.0 }) w)
    ]
  ]

  pub tls_client-IsSilent : IsSilent (tls_client env)
  unfolding tls_client tls_conn
  tls_client-IsSilent c w = elim (Run-cases (Pool.conn env c.pool w)) [
    | inr (inl e) ↦ rw e tt
    | inr (inr e) ↦ rw e tt
    | inl (r, e) ↦ rw e (IfEnds-at (IsUnwritten w) (conn-IsUnwritten c.pool w) e)
  ]
