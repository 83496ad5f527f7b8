-- ===== src/Network/Pool/Source.antt =====
-- Where the connection that Conn lends comes from, on each of its branches.
use dotproxy.Base.{
  ◌+◌, ◌≡◌, refl, ap, ◌⊎◌, inl, inr, Bool, [], ◌∷◌, some, arith, map-empty, get_elem?, All,
  Bool-cases,
}
use dotproxy.Base.Int.{ℤ, pos, ◌≤ℤ◌, ◌<ℤ◌, leb_ℤ, ltb_ℤ}
use dotproxy.Base.Time.{Time, Duration, of_unix, since}
use dotproxy.Base.Run.{Returns}
use dotproxy.Data.Mru.{MruQueue}
use dotproxy.Network.Trace.{opens, closes}
use dotproxy.Data.Mru.Laws.{held, IsFull, Pushed, pop-Popped, pop-empty, push-Pushed}
use dotproxy.Network.World.{
  NetConn, Outcome, done, fail, Outcome-cases, connection_open, connection_close, connection_error,
  Env, World, clock_read, dialed, closing, emitted,
}
use dotproxy.Network.Pool.{
  Pool, PersistentConn, new_persistent_conn, is_usable, open_conn, use_cached, conn, prefill_one,
}
use dotproxy.Network.Pool.Ownership.{IsValid, empty-or-not}

-- The connection that was used last, with the second in which it was put.
abbrev pub IsLatest : Pool → NetConn → ℤ → Type 0
IsLatest p c s = (get_elem? (held p.conns) 0 ≡ some (c, s)) × All (λ e. e.1 ≤ℤ s) (held p.conns)

-- The result of a dial after `w`, and its trace.
abbrev pub dial_result : World → Outcome NetConn → Outcome PersistentConn × World
dial_result w (done c) =
    (done (new_persistent_conn c), emitted (connection_open c) ∷ dialed (done c) ∷ w)
dial_result w (fail e) = (fail e, emitted connection_error ∷ dialed (fail e) ∷ w)

module _ (env : Env) where
  abbrev pub Dials : World → (Pool × Outcome PersistentConn) × World → Type 0
  Dials w r = ◌≡◌ {A = Outcome PersistentConn × World} (r.0.1, r.1) (dial_result w (env.dial w))

  -- The age of a connection that was put in the second `s`.
  abbrev pub age : World → ℤ → Duration
  age w s = since (env.clock w) (of_unix s)

  -- The cached connection `c` is lent: staleness is off, or it is younger than the timeout.
  abbrev pub Reuses : Pool → World → NetConn → ℤ → (Pool × Outcome PersistentConn) × World → Type 0
  Reuses p w c s r =
      (r.0.1 ≡ done (new_persistent_conn c))
      × ((p.stale_timeout ≤ℤ pos 0) × (r.1 ≡ w)
          ⊎ (age w s <ℤ p.stale_timeout) × (r.1 ≡ clock_read (env.clock w) ∷ w))

  -- The cached connection `c` is stale: it is closed, and another is dialed.
  abbrev pub Replaces :
      Pool → World → NetConn → ℤ → (Pool × Outcome PersistentConn) × World → Type 0
  Replaces p w c s r =
      (pos 0 <ℤ p.stale_timeout)
      × (p.stale_timeout ≤ℤ age w s)
      × Dials (closing c ∷ emitted (connection_close c) ∷ clock_read (env.clock w) ∷ w) r

  abbrev pub Source : Pool → World → (Pool × Outcome PersistentConn) × World → Type 0
  Source p w r =
      (held p.conns ≡ []) × Dials w r
      ⊎ ((c : NetConn) × (s : ℤ) × IsLatest p c s × (Reuses p w c s r ⊎ Replaces p w c s r))

  open_conn-Dials :
      (p : Pool) (w : World) → Returns (λ r. Dials w r × (r.0.0 ≡ p)) (open_conn env p w)
  unfolding open_conn
  open_conn-Dials p w = elim (Outcome-cases (env.dial w)) [
    | inl (c, e) ↦ (
      ((p, done (new_persistent_conn c)), emitted (connection_open c) ∷ dialed (done c) ∷ w),
      rw e,
      (rw e, refl),
    )
    | inr (x, e) ↦
        (((p, fail x), emitted connection_error ∷ dialed (fail x) ∷ w), rw e, (rw e, refl))
  ]

  use_cached-Source :
      (p : Pool) (c : NetConn) (s : ℤ) (w : World)
      → Returns
          (λ r. Reuses p w c s r ⊎ Replaces p w c s r)
          (use_cached env p (some c) (of_unix s) w)
  unfolding use_cached is_usable
  use_cached-Source p c s w = elim (Bool-cases (leb_ℤ p.stale_timeout (pos 0))) [
    | inl off ↦
        (((p, done (new_persistent_conn c)), w), rw off, inl (refl, inl (ground arith, refl)))
    | inr on ↦ elim (Bool-cases (ltb_ℤ (age w s) p.stale_timeout)) [
      | inl young ↦ (
        ((p, done (new_persistent_conn c)), clock_read (env.clock w) ∷ w),
        rw (on, young),
        inl (refl, inr (ground arith, refl)),
      )
      | inr old ↦
          let (r, e, both) =
            open_conn-Dials p
              (closing c ∷ emitted (connection_close c) ∷ clock_read (env.clock w) ∷ w) in
          (r, rw (on, old) e, inr (ground arith, ground arith, both.0))
    ]
  ]

  -- From a valid pool, Conn ends in one of these ways. If the pool is empty it dials. Otherwise it
  -- takes a connection of the latest second: with the timeout off, or below it, that one is lent;
  -- else it is closed and another is dialed. A dial's result, connection or error, is what it
  -- returns.
  pub conn-Source : (p : Pool) (w : World) → IsValid p → Returns (Source p w) (conn env p w)
  unfolding conn
  conn-Source p w v = elim (empty-or-not p) [
    | inl none_left ↦
        let (r, e, both) = open_conn-Dials p w in
        (r, rw (pop-empty p.conns none_left) e, inl (map-empty _ p.conns.store none_left, both.0))
    | inr some_left ↦
        let ((m, got), e, t) = pop-Popped p.conns v some_left in
        let (r, e', how) = use_cached-Source (record p { conns = m }) t.value t.priority w in
        (
          r,
          rw (e, t.found, t.returned, t.time) e',
          inr (t.value, t.priority, (t.first, t.latest), how),
        )
  ]

  -- A round of the loop that fills the pool, on a valid and full pool whose dial succeeds: the pool
  -- is as it was, the new connection is open, and nothing is closed. The connection is lost.
  pub full_pool_loses :
      (p : Pool) (c : NetConn) (w : World)
      → IsValid p
      → IsFull p.conns
      → env.dial w ≡ done c
      → Returns
          (λ r.
            (r.0 ≡ p) × (opens c r.1 ≡ opens c w + 1) × ((d : NetConn) → closes d r.1 ≡ closes d w))
          (prefill_one env p w)
  unfolding prefill_one
  full_pool_loses p c w v full e =
      let w₁ = emitted (connection_open c) ∷ dialed (done c) ∷ w in
      let t = env.clock w₁ in
      let ((m, added), e', pushed) = push-Pushed p.conns t c v in
      (
        (record p { conns = m }, clock_read t ∷ w₁),
        rw (e, e'),
        (
          ap (λ (n : MruQueue NetConn). record p { conns = n }) (unchanged m added t pushed),
          ground arith,
          λ d. omega arith,
        ),
      )
    where
      unchanged :
          (m : MruQueue NetConn) (added : Bool) (t : Time)
          → Pushed p.conns t c (m, added)
          → m ≡ p.conns
      unchanged m added t (_, _, inl (same, _)) = ap (λ r. r.0) same
      unchanged m added t (_, _, inr (_, room, _)) = absurd (room full)
