-- ===== src/Network/Pool/Ownership.antt =====
-- The accounting for connections: idle in the pool, lent to a caller, or closed.
use mathlib.Core.List.Perm
use dotproxy.Base.{
  ◌+◌, ◌<◌, ◌≡◌, refl, ap, ◌∙◌, ◌⊎◌, inl, inr, Bool, true, List, [], ◌∷◌, map, none, some, arith,
  length, Bool-cases,
}
use dotproxy.Base.Int.{pos, ◌≤ℤ◌, ◌<ℤ◌, leb_ℤ, ltb_ℤ}
use dotproxy.Base.Time.{Time, since}
use dotproxy.Base.Run.{ok, Returns}
use dotproxy.Data.Mru
use dotproxy.Data.Mru.{MruQueue}
use dotproxy.Data.Mru.Laws.{
  held, IsFull, is_full_iff, Popped, Pushed, pop-Popped, pop-empty, push-Pushed,
}
use dotproxy.Network.World.{
  NetConn, connection_open, connection_close, connection_error, Outcome, Outcome-cases, done, fail,
  Env, World, clock_read, dialed, closed, closing, emitted,
}
use dotproxy.Network.Trace.{count, opens, closes, count-perm}
use dotproxy.Network.Pool.{
  Pool, PersistentConn, new_persistent_conn, is_usable, open_conn, use_cached, conn, put, close,
  destroy,
}

abbrev pub idle : Pool → List NetConn
idle p = map (λ e. e.0) (held p.conns)

abbrev pub IsValid : Pool → Type 0
IsValid p = Mru.Laws.IsValid p.conns

-- The connections that a call's caller holds `before` it and `after` it are accounted for: none is
-- lost, and none is in two places that was not before.
abbrev pub Balanced : List NetConn → List NetConn → Pool → Pool → World → World → Type 0
Balanced before after p p' w w' =
    (c : NetConn)
    → count c (idle p') + count c after + closes c w' + opens c w
      ≡ count c (idle p) + count c before + closes c w + opens c w'

abbrev pub lent : Outcome PersistentConn → List NetConn
lent (done pc) = pc.conn ∷ []
lent (fail e) = []

pub empty-or-not : (p : Pool) → (length p.conns.store ≡ 0) ⊎ (0 < length p.conns.store)
empty-or-not p = omega arith

module _ (env : Env) where
  -- A usable connection is not stale, or staleness is off; asking leaves the connections alone.
  pub record Asked (p : Pool) (t : Time) (w : World) (r : Bool × World) : Type 0 where
    pub fresh : r.0 ≡ true → (p.stale_timeout ≤ℤ pos 0) ⊎ (since (env.clock w) t <ℤ p.stale_timeout)
    pub opened : (c : NetConn) → opens c r.1 ≡ opens c w
    pub closed : (c : NetConn) → closes c r.1 ≡ closes c w

  pub is_usable-Asked :
      (p : Pool) (t : Time) (w : World) → Returns (Asked p t w) (is_usable env p t w)
  unfolding is_usable
  is_usable-Asked p t w = elim (Bool-cases (leb_ℤ p.stale_timeout (pos 0))) [
    | inl off ↦ (
      (true, w),
      rw off,
      record { fresh = λ _. inl (ground arith); opened = λ c. refl; closed = λ c. refl },
    )
    | inr on ↦ (
      (ltb_ℤ (since (env.clock w) t) p.stale_timeout, clock_read (env.clock w) ∷ w),
      rw on,
      record {
        fresh = λ e. inr (ground arith);
        opened = λ c. omega arith;
        closed = λ c. omega arith;
      },
    )
  ]

  -- A dial: the new connection goes to the caller, and a failure is passed on.
  pub open_conn-Balanced :
      (p : Pool) (w : World)
      → Returns (λ r. (r.0.0 ≡ p) × Balanced [] (lent r.0.1) p r.0.0 w r.1) (open_conn env p w)
  unfolding open_conn
  open_conn-Balanced p w = elim (Outcome-cases (env.dial w)) [
    | inl (c, e) ↦ (
      ((p, done (new_persistent_conn c)), emitted (connection_open c) ∷ dialed (done c) ∷ w),
      rw e,
      (refl, λ d. omega arith),
    )
    | inr (x, e) ↦ (
      ((p, fail x), emitted connection_error ∷ dialed (fail x) ∷ w),
      rw e,
      (refl, λ d. omega arith),
    )
  ]

  -- What a call to Conn leaves: a valid pool, and every connection accounted for.
  abbrev Lent : Pool → List NetConn → World → (Pool × Outcome PersistentConn) × World → Type 0
  Lent p before w r = IsValid r.0.0 × Balanced before (lent r.0.1) p r.0.0 w r.1

  use_cached-Lent :
      (p : Pool) (c : NetConn) (t : Time) (w : World)
      → IsValid p
      → Returns (Lent p (c ∷ []) w) (use_cached env p (some c) t w)
  unfolding use_cached
  use_cached-Lent p c t w v =
      let ((usable, w₁), e, a) = is_usable-Asked p t w in
      elim (Bool-cases usable) [
        | inl yes_use ↦ (
          ((p, done (new_persistent_conn c)), w₁),
          rw (e, yes_use),
          (v, λ d. omega (arith, a.opened d, a.closed d)),
        )
        | inr stale ↦
            let (r, e', both) =
              open_conn-Balanced p (closing c ∷ emitted (connection_close c) ∷ w₁) in
            (
              r,
              rw (e, stale) e',
              (rw (both.0) v, λ d. omega (arith, a.opened d, a.closed d, both.1 d)),
            )
      ]

  -- From a valid pool, Conn ends with a valid pool and with every connection accounted for: for
  -- each, the count of places where it is (idle, lent by this call, closed) grows by the times that
  -- it was dialed.
  pub conn-Lent : (p : Pool) (w : World) → IsValid p → Returns (Lent p [] w) (conn env p w)
  unfolding conn
  conn-Lent p w v = elim (empty-or-not p) [
    | inl none_left ↦
        let (r, e, both) = open_conn-Balanced p w in
        (r, rw (pop-empty p.conns none_left) e, (rw (both.0) v, both.1))
    | inr some_left ↦
        let ((m, got), e, t) = pop-Popped p.conns v some_left in
        let q : Pool = record p { conns = m } in
        let (r, e', both) = use_cached-Lent q t.value got.time w t.valid in
        (
          r,
          rw (e, t.found, t.returned) e',
          (both.0, λ c. omega (arith, both.1 c, count-perm c (Perm.map (λ e. e.0) t.perm))),
        )
  ]

  -- A connection given back goes into the pool, or is closed where there is no room.
  pub put-Balanced :
      (p : Pool) (c : NetConn) (w : World)
      → IsValid p
      → Returns (λ r. IsValid r.0.0 × Balanced (c ∷ []) [] p r.0.0 w r.1) (put env p c w)
  unfolding put
  put-Balanced p c w v =
      let t = env.clock w in
      let w₁ = clock_read t ∷ w in
      let ((m, added), e, pushed) = push-Pushed p.conns t c v in kept m added e pushed
    where
      kept :
          (m : MruQueue NetConn) (added : Bool)
          → Mru.push p.conns (env.clock w) c ≡ ok (m, added)
          → Pushed p.conns (env.clock w) c (m, added)
          → Returns (λ r. IsValid r.0.0 × Balanced (c ∷ []) [] p r.0.0 w r.1) (put env p c w)
      kept m added e (valid, _, inl (refused, _)) = (
        ((p, env.close (clock_read (env.clock w) ∷ w) c), closed c ∷ clock_read (env.clock w) ∷ w),
        rw (e ∙ ap ok refused),
        (v, λ d. omega arith),
      )
      kept m added e (valid, _, inr (done_it, _, perm)) = (
        ((record p { conns = m }, none), clock_read (env.clock w) ∷ w),
        rw (e ∙ ap (λ b. ok (m, b)) done_it),
        (valid, λ d. omega (arith, count-perm d (Perm.map (λ e. e.0) perm))),
      )

  -- From a valid pool, Close of a connection that the caller holds ends with a valid pool, and the
  -- connection is in the pool or closed, with every other where it was.
  pub close-Balanced :
      (p : Pool) (pc : PersistentConn) (w : World)
      → IsValid p
      → Returns (λ r. IsValid r.0.0 × Balanced (pc.conn ∷ []) [] p r.0.0 w r.1) (close env p pc w)
  unfolding close
  close-Balanced p pc w v = elim (Bool-cases pc.destroyed) [
    | inl marked ↦
        let w₁ = emitted (connection_close pc.conn) ∷ w in
        (((p, env.close w₁ pc.conn), closed pc.conn ∷ w₁), rw marked, (v, λ d. omega arith))
    | inr live ↦ rw live (put-Balanced p pc.conn w v)
  ]

  -- Destroy ends with the connection marked and closed once more, and with the pool as it was; no
  -- other connection moves.
  pub destroy-Balanced :
      (p : Pool) (pc : PersistentConn) (w : World)
      → Returns
          (λ r.
            (r.0.1 ≡ p)
            × (r.0.0.destroyed ≡ true)
            × (closes pc.conn r.1 ≡ closes pc.conn w + 1)
            × Balanced (pc.conn ∷ []) [] p r.0.1 w r.1)
          (destroy env p pc w)
  unfolding destroy close
  destroy-Balanced p pc w =
      let w₁ = emitted (connection_close pc.conn) ∷ w in
      let e = env.close w₁ pc.conn in
      (
        ((record pc { destroyed = true }, p, e), closed pc.conn ∷ w₁),
        refl,
        (refl, refl, ground arith, λ d. omega arith),
      )
