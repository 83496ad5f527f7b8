-- ===== src/Network/Sharding/Policy.antt =====
-- NewShardedClient, and the client that it makes under a policy.
use dotproxy.Base.{
  ℕ, zero, suc, ◌+◌, ◌<◌, ◌≡◌, ◌≢◌, refl, ap, ◌⊎◌, inl, inr, List, [], ◌∷◌, All, length, length-set,
  arith, if◌then◌else◌, ◌==◌,
}
use dotproxy.Base.Int.{ℤ, pos, negsuc}
use dotproxy.Network.World.{unknown_policy, Outcome, done, fail, Env, M, pure, ◌>>=◌}
use dotproxy.Network.Pool.{PersistentConn}
use dotproxy.Network.Client.{Stats, Client, Keeps}
use dotproxy.Network.Sharding.Constants
use dotproxy.Network.Sharding.Constants.{LoadBalancingPolicy}
use dotproxy.Network.Sharding.RoundRobin
use dotproxy.Network.Sharding.RoundRobin.{RoundRobin}
use dotproxy.Network.Sharding.Historical
use dotproxy.Network.Sharding.Failover
use dotproxy.Network.Sharding.Availability
use dotproxy.Network.Sharding.Availability.{Sharded, new_availability}
use dotproxy.Network.Sharding.Availability.Select.{DrawsBelow}

-- The client of each policy, with its state.
pub data ShardedClient (C : Type 0) : Type 0 where
  round_robin : RoundRobin C → ShardedClient C
  random historical failover : List C → ShardedClient C
  availability : Sharded C → ShardedClient C

abbrev pub new_random : {C : Type 0} → List C → ShardedClient C
new_random = random

abbrev pub new_historical : {C : Type 0} → List C → ShardedClient C
new_historical = historical

abbrev pub new_failover : {C : Type 0} → List C → ShardedClient C
new_failover = failover

-- The switch on the policy, an int.
unfoldable pub new_sharded_client :
    {C : Type 0} → List C → LoadBalancingPolicy → Outcome (ShardedClient C)
new_sharded_client clients (pos n) =
    if n == Constants.round_robin
    then done (round_robin (RoundRobin.new_round_robin clients))
    else if n == Constants.random
    then done (new_random clients)
    else if n == Constants.historical_connections
    then done (new_historical clients)
    else if n == Constants.availability
    then done (availability (new_availability clients))
    else if n == Constants.failover
    then done (new_failover clients)
    else fail unknown_policy
new_sharded_client clients (negsuc n) = fail unknown_policy

abbrev pub add : Stats → Stats → Stats
add s t = record {
  successful_connections = s.successful_connections + t.successful_connections;
  failed_connections = s.failed_connections + t.failed_connections;
}

-- aggregateClientsStats, with its sum so far
abbrev pub aggregate_from : {C : Type 0} → Client C → Stats → List C → Stats
aggregate_from I total [] = total
aggregate_from I total (c ∷ rest) = aggregate_from I (add total (I.stats c)) rest

unfoldable pub aggregate : {C : Type 0} → Client C → List C → Stats
aggregate I = aggregate_from I (record { successful_connections = 0; failed_connections = 0 })

abbrev pub clients_of : {C : Type 0} → ShardedClient C → List C
clients_of (round_robin s) = s.clients
clients_of (random clients) = clients
clients_of (historical clients) = clients
clients_of (failover clients) = clients
clients_of (availability s) = s.clients

module _ {C : Type 0} (I : Client C) (env : Env) where
  -- The method Conn of the policy's type; that of Availability runs on fuel.
  unfoldable pub conn : ℕ → ShardedClient C → M (ShardedClient C × Outcome PersistentConn)
  conn fuel (round_robin s) = RoundRobin.conn I s >>= λ r. pure (round_robin r.0, r.1)
  conn fuel (random clients) = RoundRobin.random_conn I env clients >>= λ r. pure (random r.0, r.1)
  conn fuel (historical clients) = Historical.conn I clients >>= λ r. pure (historical r.0, r.1)
  conn fuel (failover clients) = Failover.conn I clients >>= λ r. pure (failover r.0, r.1)
  conn fuel (availability s) = Availability.conn I env fuel s >>= λ r. pure (availability r.0, r.1)

  -- The method Stats of the policy's type.
  abbrev pub round_robin_stats : RoundRobin C → Stats
  round_robin_stats s = aggregate I s.clients

  abbrev pub random_stats : List C → Stats
  random_stats clients = aggregate I clients

  abbrev pub historical_stats : List C → Stats
  historical_stats clients = aggregate I clients

  abbrev pub availability_stats : Sharded C → Stats
  availability_stats s = aggregate I s.clients

  abbrev pub failover_stats : List C → Stats
  failover_stats clients = aggregate I clients

  unfoldable pub stats : ShardedClient C → Stats
  stats (round_robin s) = round_robin_stats s
  stats (random clients) = random_stats clients
  stats (historical clients) = historical_stats clients
  stats (availability s) = availability_stats s
  stats (failover clients) = failover_stats clients

  -- A sharded client is a client again.
  unfoldable pub sharded_client : ℕ → Client (ShardedClient C)
  sharded_client fuel = record { conn = conn fuel; stats = stats }

  -- The policies whose Conn asks each client at most once, in a state with clients that satisfy `V`.
  abbrev pub IsServing : (C → Type 0) → ShardedClient C → Type 0
  IsServing V (round_robin s) = All V s.clients × (s.index < length s.clients)
  IsServing V (random clients) = All V clients × (0 < length clients)
  IsServing V (historical clients) = All V clients × (0 < length clients)
  IsServing V (failover clients) = All V clients × (0 < length clients)
  IsServing V (availability s) = ⊥

  -- Ready to serve, but under the availability policy, of which only the children are known to satisfy `V`.
  abbrev pub IsReady : (C → Type 0) → ShardedClient C → Type 0
  IsReady V (availability s) = All V s.clients
  IsReady V (round_robin s) = IsServing V (round_robin s)
  IsReady V (random clients) = IsServing V (random clients)
  IsReady V (historical clients) = IsServing V (historical clients)
  IsReady V (failover clients) = IsServing V (failover clients)

  -- With draws in range and children that keep their contract, a client sharded under RoundRobin,
  -- Random, HistoricalConnections or Failover keeps the contract of a client: from valid clients,
  -- at least one, its Conn ends, and leaves it so.
  pub sharded_client-Keeps :
      (V : C → Type 0) (fuel : ℕ)
      → Keeps V I
      → DrawsBelow env
      → Keeps (IsServing V) (sharded_client fuel)
  unfolding sharded_client conn
  sharded_client-Keeps V fuel keeps draws (round_robin s) w (valid, p) =
      let (((s', o), w'), e, t) = RoundRobin.conn-Turned I V keeps s w p valid in
      (((round_robin s', o), w'), rw e refl, (t.valid, ground (arith, t.index, t.size)))
  sharded_client-Keeps V fuel keeps draws (random clients) w (valid, p) =
      let (((cs, o), w'), e, (valid', d)) =
        RoundRobin.random_conn-Drawn I V keeps env clients w draws p valid in
      (
        ((random cs, o), w'),
        rw e refl,
        (valid', omega (arith, ap length d.changed, length-set clients d.place d.after)),
      )
  sharded_client-Keeps V fuel keeps draws (historical clients) w (valid, p) =
      elim (Historical.conn-Asked I V clients w keeps valid) [
        | inl (empty, _) ↦ absurd (omega (arith, ap length empty))
        | inr (((cs, o), w'), e, (valid', a)) ↦ (
          ((historical cs, o), w'),
          rw e refl,
          (valid', omega (arith, ap length a.changed, length-set clients a.place a.asked)),
        )
      ]
  sharded_client-Keeps V fuel keeps draws (failover clients) w (valid, p) =
      let (((cs, o), w'), e, (valid', f)) = Failover.conn-FailedOver I V clients w keeps valid in
      (
        ((failover cs, o), w'),
        rw e refl,
        (valid', omega (arith, Failover.FailedOver-length I clients w ((cs, o), w') f)),
      )
  sharded_client-Keeps V fuel keeps draws (availability s) w never = absurd never

-- The policies that there are.
abbrev pub IsKnown : ℤ → Type 0
IsKnown (pos n) = n < 5
IsKnown (negsuc n) = ⊥

-- From valid clients, at least one: NewShardedClient makes a client exactly for the five known
-- policies, and fails for any other. The client has all the given clients and, under a policy other
-- than Availability, is ready to serve.
pub new_sharded_client-IsServing :
    {C : Type 0} (I : Client C) (env : Env) (V : C → Type 0) (clients : List C) (policy : ℤ)
    → All V clients
    → 0 < length clients
    → (¬ IsKnown policy) × (new_sharded_client clients policy ≡ fail unknown_policy)
      ⊎ IsKnown policy
        × ((s : ShardedClient C) × (new_sharded_client clients policy ≡ done s)
            × (clients_of s ≡ clients)
            × (policy ≢ pos 3 → IsServing I env V s))
unfolding new_sharded_client
new_sharded_client-IsServing I env V clients (negsuc n) valid p = inl (λ h. h, refl)
new_sharded_client-IsServing I env V clients (pos zero) valid p =
    inr
      (omega arith, (round_robin (RoundRobin.new_round_robin clients), refl, refl, λ _. (valid, p)))
new_sharded_client-IsServing I env V clients (pos (suc zero)) valid p =
    inr (omega arith, (random clients, refl, refl, λ _. (valid, p)))
new_sharded_client-IsServing I env V clients (pos (suc (suc zero))) valid p =
    inr (omega arith, (historical clients, refl, refl, λ _. (valid, p)))
new_sharded_client-IsServing I env V clients (pos (suc (suc (suc zero)))) valid p =
    inr (omega arith, (availability (new_availability clients), refl, refl, λ e. absurd (e refl)))
new_sharded_client-IsServing I env V clients (pos (suc (suc (suc (suc zero))))) valid p =
    inr (omega arith, (failover clients, refl, refl, λ _. (valid, p)))
new_sharded_client-IsServing I env V clients (pos (suc (suc (suc (suc (suc n)))))) valid p =
    inl (λ h. omega arith, ground arith)
