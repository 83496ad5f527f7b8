-- ===== src/Network/Pool/Marks.antt =====
-- internal/network/persistent.go: the pool hands no connection over to a goroutine of the handler.
use dotproxy.Base.{◌≡◌, inl, inr, Bool, ◌∷◌, arith, Bool-cases}
use dotproxy.Base.Run.{Run, Run-cases, IfEnds}
use dotproxy.Data.Mru
use dotproxy.Network.World.{
  NetConn, Outcome-cases, Env, World, emitted, dialed, done, connection_open,
}
use dotproxy.Network.Trace.{marks}
use dotproxy.Network.Pool.{Pool, PersistentConn, put, close, destroy, prefill_one}

module _ (env : Env) (x : NetConn) where
  -- The trace has as many marks of the connection as `w`.
  abbrev pub Unmarked : {A : Type 0} → World → A × World → Type 0
  Unmarked w r = marks x r.1 ≡ marks x w

  put-Unmarked : (p : Pool) (c : NetConn) (w : World) → IfEnds (Unmarked w) (put env p c w)
  unfolding put
  put-Unmarked p c w = elim (Run-cases (Mru.push p.conns (env.clock w) c)) [
    | inr (inl e) ↦ rw e tt
    | inr (inr e) ↦ rw e tt
    | inl ((m, added), e) ↦ elim (Bool-cases added) [
      | inl here ↦ rw (e, here) (omega arith)
      | inr refused ↦ rw (e, refused) (omega arith)
    ]
  ]

  pub close-Unmarked :
      (p : Pool) (pc : PersistentConn) (w : World) → IfEnds (Unmarked w) (close env p pc w)
  unfolding close
  close-Unmarked p pc w = elim (Bool-cases pc.destroyed) [
    | inl marked ↦ rw marked (omega arith)
    | inr live ↦ rw live (put-Unmarked p pc.conn w)
  ]

  pub destroy-Unmarked :
      (p : Pool) (pc : PersistentConn) (w : World) → IfEnds (Unmarked w) (destroy env p pc w)
  unfolding destroy close
  destroy-Unmarked p pc w = omega arith

  pub prefill_one-Unmarked : (p : Pool) (w : World) → IfEnds (Unmarked w) (prefill_one env p w)
  unfolding prefill_one
  prefill_one-Unmarked p w = elim (Outcome-cases (env.dial w)) [
    | inr (x, e) ↦ rw e (omega arith)
    | inl (c, e) ↦ elim (Run-cases (pushed c)) [
      | inr (inl f) ↦ rw (e, f) tt
      | inr (inr f) ↦ rw (e, f) tt
      | inl (r, f) ↦ rw (e, f) (omega arith)
    ]
  ]
    where
      pushed : NetConn → Run (Mru.MruQueue NetConn × Bool)
      pushed c = Mru.push p.conns (env.clock (emitted (connection_open c) ∷ dialed (done c) ∷ w)) c
