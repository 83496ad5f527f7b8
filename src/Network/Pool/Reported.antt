-- ===== src/Network/Pool/Reported.antt =====
-- internal/network/persistent.go: what the pool reports of its connections to the metrics hook.
use dotproxy.Data.Mru.{MruQueue}
use dotproxy.Base.{
  ap, ◌∙◌, Bool, false, ℕ, ◌+◌, ◌≤◌, ◌≡◌, refl, inl, inr, [], ◌∷◌, Option, none, some, arith,
  Bool-cases,
}
use dotproxy.Base.Int.{pos, leb_ℤ, ltb_ℤ}
use dotproxy.Base.Time.{Time, since}
use dotproxy.Base.Run.{ok, Returns, IfEnds, IfEnds-at, Run-cases}
use dotproxy.Data.Mru
use dotproxy.Data.Mru.Laws.{IsFull, push-Pushed, Pushed}
use dotproxy.Network.World.{
  NetConn, Outcome-cases, done, Event, emitted, closing, closed, dialed, clock_read,
  connection_open, connection_close, Env, World,
}
use dotproxy.Network.Trace.{hit, opens, closes}
use dotproxy.Network.Pool.{
  Pool, PoolOpts, PersistentConn, new_persistent_conn, new_pool, is_usable, open_conn, use_cached,
  conn, put, close, destroy, prefill_one,
}
use dotproxy.Network.Pool.Ownership.{IsValid}
use dotproxy.Network.Pool.System.{System, Step, Reach}

abbrev pub open_in : NetConn → Event → ℕ
open_in c (emitted (connection_open d)) = hit c d
open_in c _ = 0

abbrev pub close_in : NetConn → Event → ℕ
close_in c (emitted (connection_close d)) = hit c d
close_in c _ = 0

-- How often the hook was told that a connection opened, and that it closed.
abbrev pub reported_opens : NetConn → World → ℕ
reported_opens c [] = 0
reported_opens c (e ∷ w) = open_in c e + reported_opens c w

abbrev pub reported_closes : NetConn → World → ℕ
reported_closes c [] = 0
reported_closes c (e ∷ w) = close_in c e + reported_closes c w

-- From the trace `w` on, each opening is reported, and each report of a close is of one.
abbrev Reports : {A : Type 0} → World → A × World → Type 0
Reports w r =
    (c : NetConn)
    → (reported_opens c r.1 + opens c w ≡ reported_opens c w + opens c r.1)
      × (reported_closes c r.1 + closes c w ≤ reported_closes c w + closes c r.1)

module _ (env : Env) where
  open_conn-Reports : (p : Pool) (w : World) → IfEnds (Reports w) (open_conn env p w)
  unfolding open_conn
  open_conn-Reports p w = elim (Outcome-cases (env.dial w)) [
    | inl (d, e) ↦ rw e (λ c. (omega arith, omega arith))
    | inr (x, e) ↦ rw e (λ c. (omega arith, omega arith))
  ]

  use_cached-Reports :
      (p : Pool) (o : Option NetConn) (t : Time) (w : World)
      → IfEnds (Reports w) (use_cached env p o t w)
  unfolding use_cached is_usable open_conn
  use_cached-Reports p none t w = tt
  use_cached-Reports p (some d) t w = elim (Bool-cases (leb_ℤ p.stale_timeout (pos 0))) [
    | inl always ↦ rw always (λ c. (omega arith, omega arith))
    | inr limited ↦ elim (Bool-cases (ltb_ℤ (since (env.clock w) t) p.stale_timeout)) [
      | inl fresh ↦ rw (limited, fresh) (λ c. (omega arith, omega arith))
      | inr stale ↦
          let w₁ = closing d ∷ emitted (connection_close d) ∷ clock_read (env.clock w) ∷ w in
          elim (Outcome-cases (env.dial w₁)) [
            | inl (d', e) ↦ rw (limited, stale, e) (λ c. (omega arith, omega arith))
            | inr (x, e) ↦ rw (limited, stale, e) (λ c. (omega arith, omega arith))
          ]
    ]
  ]

  conn-Reports : (p : Pool) (w : World) → IfEnds (Reports w) (conn env p w)
  unfolding conn
  conn-Reports p w = elim (Run-cases (Mru.pop p.conns)) [
    | inr (inl e) ↦ rw e tt
    | inr (inr e) ↦ rw e tt
    | inl (r, e) ↦ elim (Bool-cases r.1.found) [
      | inl found ↦
          rw (e, found) (use_cached-Reports (record p { conns = r.0 }) r.1.value r.1.time w)
      | inr empty ↦ rw (e, empty) (open_conn-Reports (record p { conns = r.0 }) w)
    ]
  ]

  put-Reports : (p : Pool) (d : NetConn) (w : World) → IfEnds (Reports w) (put env p d w)
  unfolding put
  put-Reports p d w = elim (Run-cases (Mru.push p.conns (env.clock w) d)) [
    | inr (inl e) ↦ rw e tt
    | inr (inr e) ↦ rw e tt
    | inl (r, e) ↦ elim (Bool-cases r.1) [
      | inl kept ↦ rw (e, kept) (λ c. (omega arith, omega arith))
      | inr refused ↦ rw (e, refused) (λ c. (omega arith, omega arith))
    ]
  ]

  close-Reports :
      (p : Pool) (pc : PersistentConn) (w : World) → IfEnds (Reports w) (close env p pc w)
  unfolding close
  close-Reports p pc w = elim (Bool-cases pc.destroyed) [
    | inl marked ↦ rw marked (λ c. (omega arith, omega arith))
    | inr live ↦ rw live (put-Reports p pc.conn w)
  ]

  destroy-Reports :
      (p : Pool) (pc : PersistentConn) (w : World) → IfEnds (Reports w) (destroy env p pc w)
  unfolding destroy close
  destroy-Reports p pc w c = (omega arith, omega arith)

  prefill_one-Reports : (p : Pool) (w : World) → IfEnds (Reports w) (prefill_one env p w)
  unfolding prefill_one
  prefill_one-Reports p w = elim (Outcome-cases (env.dial w)) [
    | inr (x, e) ↦ rw e (λ c. (omega arith, omega arith))
    | inl (d, e) ↦
        let w₁ = emitted (connection_open d) ∷ dialed (done d) ∷ w in
        elim (Run-cases (Mru.push p.conns (env.clock w₁) d)) [
          | inr (inl e') ↦ rw (e, e') tt
          | inr (inr e') ↦ rw (e, e') tt
          | inl (r, e') ↦ rw (e, e') (λ c. (omega arith, omega arith))
        ]
  ]

new_pool-trace : (opts : PoolOpts) → IfEnds (λ r. r.1 ≡ []) (new_pool opts [])
unfolding new_pool
new_pool-trace opts = elim (Run-cases (Mru.new_mru_queue {A = NetConn} opts.capacity)) [
  | inr (inl e) ↦ rw e tt
  | inr (inr e) ↦ rw e tt
  | inl (r, e) ↦ rw e refl
]

module _ {env : Env} where
  Step-Reports : {s t : System} → Step env s t → Reports s.world (t, t.world)
  Step-Reports {s} (Step.request e) =
      IfEnds-at (Reports s.world) (conn-Reports env s.pool s.world) e
  Step-Reports {s} (Step.give_back c rest same e) =
      IfEnds-at (Reports s.world) (close-Reports env s.pool (new_persistent_conn c) s.world) e
  Step-Reports {s} (Step.discard c rest same e) =
      IfEnds-at (Reports s.world) (destroy-Reports env s.pool (new_persistent_conn c) s.world) e
  Step-Reports {s} (Step.fill e) =
      IfEnds-at (Reports s.world) (prefill_one-Reports env s.pool s.world) e

  -- In every state that requests, closes, destructions and rounds of the filling loop reach from a new
  -- pool, in any order, the hook was told of each opening of a connection exactly once, and of its closing
  -- at most as often as it was closed.
  pub Reach-Reported :
      {opts : PoolOpts} {s : System} (c : NetConn)
      → Reach env opts s
      → (reported_opens c s.world ≡ opens c s.world)
        × (reported_closes c s.world ≤ closes c s.world)
  Reach-Reported {opts} c (Reach.start e) =
      let nothing = IfEnds-at (λ r. r.1 ≡ []) (new_pool-trace opts) e in
      rw nothing (refl, omega arith)
  Reach-Reported c (Reach.later {s} r step) =
      let (opened, closed_too) = Reach-Reported c r in
      let (opens_now, closes_now) = Step-Reports step c in
      (omega (arith, opened, opens_now), omega (arith, closed_too, closes_now))

-- A valid and full pool that is given a connection back closes it, once, and reports no close of any
-- connection; the pool is as it was.
pub full_pool_unreported :
    (env : Env) (p : Pool) (c : NetConn) (w : World)
    → IsValid p
    → IsFull p.conns
    → Returns
        (λ r.
          (r.0.0 ≡ p)
          × (closes c r.1 ≡ closes c w + 1)
          × ((d : NetConn) → reported_closes d r.1 ≡ reported_closes d w))
        (close env p (new_persistent_conn c) w)
unfolding close put
full_pool_unreported env p c w v full =
    let t = env.clock w in
    let ((m, added), e, pushed) = push-Pushed p.conns t c v in
    (
      ((p, env.close (clock_read t ∷ w) c), closed c ∷ clock_read t ∷ w),
      rw (e ∙ ap ok (unchanged m added pushed)),
      (refl, ground arith, λ d. omega arith),
    )
  where
    unchanged :
        (m : MruQueue NetConn) (added : Bool)
        → Pushed p.conns (env.clock w) c (m, added)
        → ◌≡◌ {A = MruQueue NetConn × Bool} (m, added) (p.conns, false)
    unchanged m added (_, _, inl (same, _)) = same
    unchanged m added (_, _, inr (_, room, _)) = absurd (room full)
