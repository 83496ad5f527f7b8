-- ===== src/Network/Pool/Filling.antt =====
-- internal/network/persistent.go: the loop that fills a new pool, and what it may lose.
use mathlib.Core.List.Perm
use dotproxy.Base.{◌+◌, ◌≡◌, ap, inl, inr, Bool, List, [], ◌∷◌, arith, if◌then◌else◌}
use dotproxy.Base.Time.{Time}
use dotproxy.Base.Run.{Returns}
use dotproxy.Data.Mru
use dotproxy.Data.Mru.{MruQueue}
use dotproxy.Data.Mru.Laws.{IsFull, is_full_iff, Pushed, push-Pushed}
use dotproxy.Network.World.{
  NetConn, connection_open, connection_error, Outcome, Outcome-cases, done, fail, Env, World,
  clock_read, dialed, emitted,
}
use dotproxy.Network.Trace.{hit, opens, closes, count-perm}
use dotproxy.Network.Pool.{Pool, prefill_one}
use dotproxy.Network.Pool.Ownership.{IsValid, Balanced}

-- The connection that Push refuses, after a dial while the pool is filled.
pub refused : Pool → Outcome NetConn → List NetConn
refused p (fail e) = []
refused p (done c) = if Mru.is_full p.conns then c ∷ [] else []

refused_full : (p : Pool) (c : NetConn) → IsFull p.conns → refused p (done c) ≡ c ∷ []
unfolding refused
refused_full p c full = elim (is_full_iff p.conns) [
  | inl (e, _) ↦ rw e
  | inr (_, room) ↦ absurd (room full)
]

refused_room : (p : Pool) (c : NetConn) → ¬ IsFull p.conns → refused p (done c) ≡ []
unfolding refused
refused_room p c room = elim (is_full_iff p.conns) [
  | inl (_, full) ↦ absurd (room full)
  | inr (e, _) ↦ rw e
]

module _ (env : Env) where
  -- A round of the loop that fills the pool accounts for every connection but the one that it may
  -- refuse.
  abbrev Filled : Pool → World → Pool × World → Type 0
  Filled p w r = IsValid r.0 × Balanced [] (refused p (env.dial w)) p r.0 w r.1

  push_filled :
      (p : Pool) (c : NetConn) (w w₁ : World) (m : MruQueue NetConn) (added : Bool) (t : Time)
      → ((d : NetConn) → (opens d w₁ ≡ hit d c + opens d w) × (closes d w₁ ≡ closes d w))
      → Pushed p.conns t c (m, added)
      → IsValid (record p { conns = m })
        × Balanced [] (refused p (done c)) p (record p { conns = m }) w w₁
  push_filled p c w w₁ m added t opened (valid, _, inl (same, full)) =
      (valid, λ d. rw (refused_full p c full, ap (λ r. r.0) same) (omega (arith, opened d)))
  push_filled p c w w₁ m added t opened (valid, _, inr (_, room, perm)) = (
    valid,
    λ d.
        rw (refused_room p c room)
          (omega (arith, opened d, count-perm d (Perm.map (λ e. e.0) perm))),
  )

  -- From a valid pool, a round of the loop that fills it ends with a valid pool, and accounts for
  -- every connection but one: the dialed connection that a full pool refuses.
  pub prefill_one-Filled :
      (p : Pool) (w : World) → IsValid p → Returns (Filled p w) (prefill_one env p w)
  unfolding prefill_one refused
  prefill_one-Filled p w v = elim (Outcome-cases (env.dial w)) [
    | inl (c, e) ↦
        let w₁ = emitted (connection_open c) ∷ dialed (done c) ∷ w in
        let t = env.clock w₁ in
        let ((m, added), e', pushed) = push-Pushed p.conns t c v in
        (
          (record p { conns = m }, clock_read t ∷ w₁),
          rw (e, e'),
          rw e (push_filled p c w (clock_read t ∷ w₁) m added t (λ d. omega arith) pushed),
        )
    | inr (x, e) ↦
        ((p, emitted connection_error ∷ dialed (fail x) ∷ w), rw e, (v, λ d. rw e (omega arith)))
  ]
