-- ===== src/Network/Ledger/Ended.antt =====
-- The accounting under every policy, where a Conn that runs out of fuel is left out.
use dotproxy.Base.{ℕ, refl, inl, inr, List, ◌++◌, arith}
use dotproxy.Base.Run.{
  Run, ok, panic, ◌>>=◌, out_of_fuel, Returns, ◌⊑◌, Run-cases, Soundly, Soundly-of,
}
use dotproxy.Network.World.{NetConn, World, Env, Outcome, fail, no_live_clients}
use dotproxy.Network.Pool.{PersistentConn}
use dotproxy.Network.Pool.Ownership.{lent}
use dotproxy.Network.Client.{Client}
use dotproxy.Network.Ledger.{Accounts, IsAccounted}
use dotproxy.Network.Ledger.Sharded.{held_by, sharded_client-IsAccounted}
use dotproxy.Network.Ledger.Availability.{Accounted, conn-Soundly}
use dotproxy.Network.Sharding.Policy.{
  ShardedClient, round_robin, random, historical, failover, availability, conn, sharded_client,
  IsServing, IsReady,
}
use dotproxy.Network.Sharding.Availability
use dotproxy.Network.Sharding.Availability.Select.{DrawsBelow}

-- The client with an error in place of a Conn that runs out of fuel.
abbrev pub end_by :
    {C : Type 0}
    → C
    → World
    → Run ((C × Outcome PersistentConn) × World)
    → Run ((C × Outcome PersistentConn) × World)
end_by c w (ok r) = ok r
end_by c w panic = panic
end_by c w out_of_fuel = ok ((c, fail no_live_clients), w)

abbrev pub ended : {C : Type 0} → Client C → Client C
ended I = record { conn = λ c w. end_by c w (I.conn c w); stats = I.stats }

pub ended-⊑ : {C : Type 0} (I : Client C) (c : C) (w : World) → I.conn c w ⊑ (ended I).conn c w
ended-⊑ I c w = elim (Run-cases (I.conn c w)) [
  | inl (r, e) ↦ inr (rw e refl)
  | inr (inl e) ↦ inr (rw e refl)
  | inr (inr e) ↦ inl e
]

module _ {C : Type 0} (V : C → Type 0) (held : C → List NetConn) (I : Client C) where
  -- What IsAccounted asks of a Conn that ends.
  abbrev pub AccountsSoundly : Type 0
  AccountsSoundly =
      (c : C) (w : World)
      → V c
      → Soundly (λ r. V r.0.0 × Accounts (held c) (lent r.0.1 ++ held r.0.0) w r.1) (I.conn c w)

  end_by-Returns :
      (c : C) (w : World) (r : Run ((C × Outcome PersistentConn) × World))
      → V c
      → Soundly (λ r. V r.0.0 × Accounts (held c) (lent r.0.1 ++ held r.0.0) w r.1) r
      → Returns (λ r. V r.0.0 × Accounts (held c) (lent r.0.1 ++ held r.0.0) w r.1) (end_by c w r)
  end_by-Returns c w (ok r) v p = (r, refl, p)
  end_by-Returns c w panic v never = absurd never
  end_by-Returns c w out_of_fuel v p = (((c, fail no_live_clients), w), refl, (v, λ x. omega arith))

  pub ended-IsAccounted : AccountsSoundly → IsAccounted V held (ended I)
  ended-IsAccounted sound c w v = end_by-Returns c w (I.conn c w) v (sound c w v)

module _ {C : Type 0} (V : C → Type 0) (held : C → List NetConn) (I : Client C)
    (accounted : IsAccounted V held I) (env : Env) where
  IsReady-served : (c : ShardedClient C) → IsServing I env V c → IsReady I env V c
  IsReady-served (round_robin s) v = v
  IsReady-served (random cs) v = v
  IsReady-served (historical cs) v = v
  IsReady-served (failover cs) v = v
  IsReady-served (availability s) v = absurd v

  -- What a Conn from the state `c` leaves.
  abbrev Left :
      ShardedClient C → World → (ShardedClient C × Outcome PersistentConn) × World → Type 0
  Left c w r =
      IsReady I env V r.0.0 × Accounts (held_by V held c) (lent r.0.1 ++ held_by V held r.0.0) w r.1

  served :
      (fuel : ℕ) (c : ShardedClient C) (w : World)
      → DrawsBelow env
      → IsServing I env V c
      → Soundly (Left c w) ((sharded_client I env fuel).conn c w)
  served fuel c w draws v =
      let (r, e, (v', a)) = sharded_client-IsAccounted V held I accounted env fuel draws c w v in
      Soundly-of (r, e, (IsReady-served r.0.0 v', a))

  wrapped :
      (s : Availability.Sharded C) (w : World)
      (r : Run ((Availability.Sharded C × Outcome PersistentConn) × World))
      → Soundly (Accounted V held I accounted env s w) r
      → Soundly (Left (availability s) w) (r >>= λ q. ok ((availability q.0.0, q.0.1), q.1))
  wrapped s w (ok r) p = p
  wrapped s w panic p = p
  wrapped s w out_of_fuel p = p

  -- Under every policy.
  pub sharded_client-Soundly :
      (fuel : ℕ)
      → DrawsBelow env
      → AccountsSoundly (IsReady I env V) (held_by V held) (sharded_client I env fuel)
  unfolding sharded_client conn
  sharded_client-Soundly fuel draws (round_robin s) w v = served fuel (round_robin s) w draws v
  sharded_client-Soundly fuel draws (random cs) w v = served fuel (random cs) w draws v
  sharded_client-Soundly fuel draws (historical cs) w v = served fuel (historical cs) w draws v
  sharded_client-Soundly fuel draws (failover cs) w v = served fuel (failover cs) w draws v
  sharded_client-Soundly fuel draws (availability s) w v =
      wrapped s w (Availability.conn I env fuel s w)
        (conn-Soundly V held I accounted env fuel s w draws v)
