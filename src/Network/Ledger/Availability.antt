-- ===== src/Network/Ledger/Availability.antt =====
-- The accounting of the client under the availability policy, one call of its Conn at a time.
use dotproxy.Base.{
  ℕ, zero, suc, ◌≡◌, ap, sym, subst, inl, inr, List, ◌++◌, some, arith, All, All-get_elem?, All-set,
  length, set, get_elem?, get_elem?-in,
}
use dotproxy.Base.Time.{Time}
use dotproxy.Base.Run.{Returns, Returns-at, Soundly, Soundly-map}
use dotproxy.Network.World.{NetConn, World, Outcome, Outcome-cases, Error, done, fail, Env}
use dotproxy.Network.Trace.{count}
use dotproxy.Network.Pool.{PersistentConn}
use dotproxy.Network.Pool.Ownership.{lent}
use dotproxy.Network.Client.{Client, Keeps}
use dotproxy.Network.Ledger.{Accounts, IsAccounted}
use dotproxy.Network.Ledger.Sharded.{held_all, one-Accounts}
use dotproxy.Network.Sharding.Availability.{Sharded, conn}
use dotproxy.Network.Sharding.Availability.Select.{DrawsBelow, Selected, select_available-Selected}
use dotproxy.Network.Sharding.Availability.Backoff.{IsBounded}
use dotproxy.Network.Sharding.Availability.Outage.{IsQuick}
use dotproxy.Network.Sharding.Availability.Quiet.{
  IsQuiet, select_available-IsQuiet, note_failure-IsQuiet,
}
use dotproxy.Network.Sharding.Availability.Ends.{Settled, conn_none, conn_won, conn_lost, conn-Ends}

module _ {C : Type 0} (V : C → Type 0) (held : C → List NetConn) (I : Client C)
    (accounted : IsAccounted V held I) (env : Env) where
  abbrev pub Accounted : Sharded C → World → (Sharded C × Outcome PersistentConn) × World → Type 0
  Accounted s w r =
      All V r.0.0.clients
      × Accounts (held_all V held s.clients) (lent r.0.1 ++ held_all V held r.0.0.clients) w r.1

  -- After a failed child `c`, which became `c'`, the rest of the call accounts from what is left.
  after_failure-Accounted :
      (s s' : Sharded C) (i : ℕ) (c c' : C) (e : Error) (w w₁ w₂ w₃ : World)
      (r : (Sharded C × Outcome PersistentConn) × World)
      → get_elem? s.clients i ≡ some c
      → s'.clients ≡ set s.clients i c'
      → IsQuiet w w₁
      → Accounts (held c) (lent (fail e) ++ held c') w₁ w₂
      → IsQuiet w₂ w₃
      → Accounted s' w₃ r
      → Accounted s w r
  after_failure-Accounted s s' i c c' e w w₁ w₂ w₃ r at same quiet called quiet' (valid, rest) =
      let one = one-Accounts V held I accounted s.clients i c c' (fail e) w₁ w₂ at called in
      (
        valid,
        λ x.
            omega
              (arith, quiet x, one x, quiet' x, rest x, ap (λ l. count x (held_all V held l)) same),
      )

  pub conn-Soundly :
      (fuel : ℕ) (s : Sharded C) (w : World)
      → DrawsBelow env
      → All V s.clients
      → Soundly (Accounted s w) (conn I env fuel s w)
  unfolding conn
  conn-Soundly zero s w draws valid = tt
  conn-Soundly (suc fuel) s w draws valid =
      let ((o, w₁), chose, selected) = select_available-Selected env s w draws in
      let quiet = Returns-at _ (select_available-IsQuiet env s w draws) chose in
      elim (Outcome-cases o) [
        | inr (e, o_fail) ↦
            subst (Soundly (Accounted s w)) (sym (conn_none V I env 0 fuel s o w w₁ chose e o_fail))
              (valid, λ x. omega (arith, quiet x))
        | inl (i, o_done) ↦
            let (p, _, _) = subst (λ o. Selected env s w (o, w₁)) o_done selected in
            let (c, at) = get_elem?-in s.clients i p in
            let ((r, w₂), called, (kept, accounts)) =
              accounted c w₁ (All-get_elem? V s.clients i c valid at) in
            let all_kept = All-set V s.clients i r.0 valid kept in
            elim (Outcome-cases r.1) [
              | inl (pc, won) ↦
                  let one =
                    one-Accounts V held I accounted s.clients i c r.0 (done pc) w₁ w₂ at
                      (subst (λ o. Accounts (held c) (lent o ++ held r.0) w₁ w₂) won accounts) in
                  subst (Soundly (Accounted s w))
                    (sym (conn_won V I env 0 fuel s o w w₁ chose i c r w₂ o_done at called pc won))
                    (all_kept, λ x. omega (arith, quiet x, one x))
              | inr (e, lost) ↦
                  let marked : Sharded C = record s { clients = set s.clients i r.0 } in
                  let ((s', w₃), noted, (same, quiet')) = note_failure-IsQuiet env marked i w₂ in
                  let failed =
                    subst (λ o. Accounts (held c) (lent o ++ held r.0) w₁ w₂) lost accounts in
                  subst (Soundly (Accounted s w))
                    (sym (
                      conn_lost V I env 0 fuel s o w w₁ chose i c r w₂ o_done at called e s' w₃ lost
                        noted))
                    (Soundly-map (conn I env fuel s' w₃)
                      (λ q.
                        after_failure-Accounted s s' i c r.0 e w w₁ w₂ w₃ q at same quiet failed
                          quiet')
                      (conn-Soundly fuel s' w₃ draws (subst (All V) (sym same) all_kept)))
            ]
      ]

  keeps : Keeps V I
  keeps c w v = let (r, e, both) = accounted c w v in (r, e, both.0)

  -- Under the hypotheses on time and on the failures before that bound the retries (the clock stays within
  -- the 100 ms from a time after the zero time on, and each client has not failed before or has its
  -- expiry within bounds), with draws in range and valid children that account for their
  -- connections: the availability policy's Conn ends, with a connection or with the error that no
  -- client is live, the children are valid again, and each connection that they held or opened is then
  -- held by them, lent, closed or handed over, however many of them have failed on the way.
  pub availability-Accounted :
      (from : Time) (s : Sharded C) (w : World)
      → DrawsBelow env
      → IsQuick env from
      → All V s.clients
      → ((i : ℕ) → IsBounded s i)
      → Returns (λ r. Settled r.0.1 × Accounted s w r) (conn I env (suc (length s.clients)) s w)
  availability-Accounted from s w draws quick valid bounded =
      let (r, e, settled) = conn-Ends V I env from s w keeps draws quick valid bounded in
      (
        r,
        e,
        (
          settled,
          subst (Soundly (Accounted s w)) e (conn-Soundly (suc (length s.clients)) s w draws valid),
        ),
      )
