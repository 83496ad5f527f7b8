-- ===== src/Network/Ledger/Sharded.antt =====
-- The accounting of the clients that are made of several.
use dotproxy.Base.{
  ℕ, zero, suc, ◌+◌, ◌≡◌, refl, ap, sym, inl, inr, List, [], ◌∷◌, ◌++◌, some, arith, All,
  All-get_elem?, length, length-set, get_elem?, set, subst, some_inj,
}
use dotproxy.Base.Run.{Returns-at, ok}
use dotproxy.Network.World.{NetConn, World, Outcome, done, fail, Env, drawn}
use dotproxy.Network.Trace.{count, count-append}
use dotproxy.Network.Pool.{PersistentConn}
use dotproxy.Network.Pool.Ownership.{lent}
use dotproxy.Network.Client.{Client, Keeps}
use dotproxy.Network.Ledger.{Accounts, IsAccounted}
use dotproxy.Network.Sharding.RoundRobin.{conn-Turned, random_conn-Drawn}
use dotproxy.Network.Sharding.Historical.{conn-Asked}
use dotproxy.Network.Sharding.Failover
use dotproxy.Network.Sharding.Failover.{AllFail, FailedOver, conn-FailedOver}
use dotproxy.Network.Sharding.Policy.{
  ShardedClient, round_robin, random, historical, failover, availability, clients_of, conn,
  sharded_client, IsServing,
}
use dotproxy.Network.Sharding.Availability.Select.{DrawsBelow}

module _ {C : Type 0} (V : C → Type 0) (held : C → List NetConn) where
  -- What the clients of a list hold, together.
  abbrev pub held_all : List C → List NetConn
  held_all [] = []
  held_all (c ∷ cs) = held c ++ held_all cs

  -- What a sharded client holds: what its children do.
  abbrev pub held_by : ShardedClient C → List NetConn
  held_by s = held_all (clients_of s)

  pub count-held_all-set :
      (cs : List C) (i : ℕ) (c c' : C) (x : NetConn)
      → get_elem? cs i ≡ some c
      → count x (held_all (set cs i c')) + count x (held c)
        ≡ count x (held_all cs) + count x (held c')
  count-held_all-set [] i c c' x at = absurd (cc)
  count-held_all-set (d ∷ cs) zero c c' x at = omega (
    arith,
    ap (λ e. count x (held e)) (some_inj d c at),
    count-append x (held d) (held_all cs),
    count-append x (held c') (held_all cs),
  )
  count-held_all-set (d ∷ cs) (suc i) c c' x at = omega (
    arith,
    count-held_all-set cs i c c' x at,
    count-append x (held d) (held_all cs),
    count-append x (held d) (held_all (set cs i c')),
  )

  module _ (I : Client C) (accounted : IsAccounted V held I) where
    called-Accounts :
        (c c' : C) (o : Outcome PersistentConn) (w w' : World)
        → V c
        → I.conn c w ≡ ok ((c', o), w')
        → Accounts (held c) (lent o ++ held c') w w'
    called-Accounts c c' o w w' v e = (Returns-at _ (accounted c w v) e).1

    -- One child is called, and the others are as they were.
    pub one-Accounts :
        (cs : List C) (i : ℕ) (c c' : C) (o : Outcome PersistentConn) (w w' : World)
        → get_elem? cs i ≡ some c
        → Accounts (held c) (lent o ++ held c') w w'
        → Accounts (held_all cs) (lent o ++ held_all (set cs i c')) w w'
    one-Accounts cs i c c' o w w' at a x = omega (
      arith,
      a x,
      count-held_all-set cs i c c' x at,
      count-append x (lent o) (held c'),
      count-append x (lent o) (held_all (set cs i c')),
    )

    AllFail-Accounts :
        (before after : List C) (w w' : World)
        → All V before
        → AllFail I before w after w'
        → Accounts (held_all before) (held_all after) w w'
    AllFail-Accounts _ _ w _ v (AllFail.none_asked _) x = refl
    AllFail-Accounts _ _ w w' v (AllFail.one_failed c c' before after _ w₁ _ e opened rest) x =
        omega (
          arith,
          called-Accounts c c' (fail e) w w₁ v.0 opened x,
          AllFail-Accounts before after w₁ w' v.1 rest x,
          count-append x (held c) (held_all before),
          count-append x (held c') (held_all after),
        )

    count-held_all-append :
        (front back : List C) (x : NetConn)
        → count x (held_all (front ++ back)) ≡ count x (held_all front) + count x (held_all back)
    count-held_all-append [] back x = omega arith
    count-held_all-append (a ∷ front) back x = omega (
      arith,
      count-held_all-append front back x,
      count-append x (held a) (held_all (front ++ back)),
      count-append x (held a) (held_all front),
    )

    All-split : (front back : List C) → All V (front ++ back) → All V front × All V back
    All-split [] back v = (tt, v)
    All-split (a ∷ front) back v = let (l, r) = All-split front back v.1 in ((v.0, l), r)

    FailedOver-Accounts :
        (cs : List C) (w : World) (r : (List C × Outcome PersistentConn) × World)
        → All V cs
        → FailedOver I cs w r
        → Accounts (held_all cs) (lent r.0.1 ++ held_all r.0.0) w r.1
    FailedOver-Accounts cs w _ v (FailedOver.all_failed after w' a) x =
        AllFail-Accounts cs after w w' v a x
    FailedOver-Accounts cs w _ v (FailedOver.one_gave before after rest c c' pc w₁ w' split a gave)
          x =
        let (v₁, v₂) = All-split before (c ∷ rest) (subst (All V) split v) in
        omega (
          arith,
          ap (λ l. count x (held_all l)) split,
          AllFail-Accounts before after w w₁ v₁ a x,
          called-Accounts c c' (done pc) w₁ w' v₂.0 gave x,
          count-held_all-append before (c ∷ rest) x,
          count-held_all-append after (c' ∷ rest) x,
          count-append x (held c) (held_all rest),
          count-append x (held c') (held_all rest),
        )

    child-Keeps : Keeps V I
    child-Keeps c w v = let (r, e, both) = accounted c w v in (r, e, both.0)

    -- With draws in range, a client sharded under RoundRobin, Random, HistoricalConnections or Failover
    -- over children that account for their connections accounts for its own: they are what its children
    -- hold.
    pub sharded_client-IsAccounted :
        (env : Env) (fuel : ℕ)
        → DrawsBelow env
        → IsAccounted (IsServing I env V) held_by (sharded_client I env fuel)
    unfolding sharded_client conn
    sharded_client-IsAccounted env fuel draws (round_robin s) w v =
        let (((s', o), w'), e, t) = conn-Turned I V child-Keeps s w v.1 v.0 in
        let (c, c', at, called, _, changed) = t.asked in
        let a =
          one-Accounts s.clients s.index c c' o w w' at
            (called-Accounts c c' o w w' (All-get_elem? V s.clients s.index c v.0 at) called) in
        (
          ((round_robin s', o), w'),
          rw e refl,
          (
            (t.valid, ground (arith, t.index, t.size, v.1)),
            subst (λ l. Accounts (held_all s.clients) (lent o ++ held_all l) w w') (sym changed) a,
          ),
        )
    sharded_client-IsAccounted env fuel draws (random clients) w v =
        let (((cs, o), w'), e, (valid, d)) =
          random_conn-Drawn I V child-Keeps env clients w draws v.1 v.0 in
        let w₁ = drawn d.bound d.number ∷ w in
        let a = one-Accounts clients d.place d.before d.after o w₁ w' d.at (
          called-Accounts d.before d.after o w₁ w'
            (All-get_elem? V clients d.place d.before v.0 d.at) d.asked) in
        (
          ((random cs, o), w'),
          rw e refl,
          (
            (valid, omega (arith, v.1, ap length d.changed, length-set clients d.place d.after)),
            subst (λ l. Accounts (held_all clients) (lent o ++ held_all l) w w') (sym d.changed)
                (λ x. omega (arith, a x)),
          ),
        )
    sharded_client-IsAccounted env fuel draws (historical clients) w v =
        elim (conn-Asked I V clients w child-Keeps v.0) [
          | inl (empty, _) ↦ absurd (omega (arith, v.1, ap length empty))
          | inr (((cs, o), w'), e, (valid, k)) ↦
              let at = k.fewest.1 in
              let a = one-Accounts clients k.place k.client k.asked o w w' at (
                called-Accounts k.client k.asked o w w'
                  (All-get_elem? V clients k.place k.client v.0 at) k.called) in
              (
                ((historical cs, o), w'),
                rw e refl,
                (
                  (
                    valid,
                    omega (arith, v.1, ap length k.changed, length-set clients k.place k.asked),
                  ),
                  subst (λ l. Accounts (held_all clients) (lent o ++ held_all l) w w')
                      (sym k.changed) a,
                ),
              )
        ]
    sharded_client-IsAccounted env fuel draws (failover clients) w v =
        let (((cs, o), w'), e, (valid, f)) = conn-FailedOver I V clients w child-Keeps v.0 in
        (
          ((failover cs, o), w'),
          rw e refl,
          (
            (valid, omega (arith, v.1, Failover.FailedOver-length I clients w ((cs, o), w') f)),
            FailedOver-Accounts clients w ((cs, o), w') v.0 f,
          ),
        )
    sharded_client-IsAccounted env fuel draws (availability s) w never = absurd never
