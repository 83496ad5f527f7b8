-- ===== src/Tests/Sharding.antt =====
-- Two clients of upstream servers under each policy, on which the theorems of `Network.Sharding` are run.
use dotproxy.Base.{
  ◌<◌, ℕ, ◌≤◌, ◌≡◌, ◌-◌, refl, ◌⊎◌, inl, List, [], ◌∷◌, some, arith, get_elem?, All,
}
use dotproxy.Base.Int.{pos, ◌<ℤ◌}
use dotproxy.Base.Run.{ok, panic, Returns}
use dotproxy.Base.Time.{Time}
use dotproxy.Network.Client.{TlsClient, Client, tls_client}
use dotproxy.Network.Client.Counts.{tls_client-Keeps}
use dotproxy.Network.Pool.Ownership.{IsValid}
use dotproxy.Network.Sharding.RoundRobin.{RoundRobin}
use dotproxy.Network.Sharding.RoundRobin.Round.{conns, WasAsked, conns-WasAsked}
use dotproxy.Network.Sharding.Interleaved
use dotproxy.Network.Sharding.Interleaved.{
  Stage, to_choose, to_load, ended, Steps, Inv, IsInRange, Steps-IsInRange,
}
use dotproxy.Network.Sharding.Historical
use dotproxy.Network.Sharding.Historical.{Asked, conn-Asked}
use dotproxy.Network.Sharding.Failover
use dotproxy.Network.Sharding.Failover.{FailedOver, conn-FailedOver}
use dotproxy.Network.Sharding.Availability
use dotproxy.Network.Sharding.Availability.{
  Sharded, new_availability, initial_expiry, select_available, note_failure,
}
use dotproxy.Network.Sharding.Availability.Select.{Selected, select_available-Selected}
use dotproxy.Network.Sharding.Availability.Backoff.{IsEligible, Noted, note_failure-Noted}
use dotproxy.Network.Sharding.Availability.Burst.{burst, burst_overflows}
use dotproxy.Network.Sharding.Availability.Ends.{Settled, conn-Ends}
use dotproxy.Network.Sharding.Policy.{IsServing, sharded_client}
use dotproxy.Network.Ledger.{IsAccounted}
use dotproxy.Network.Ledger.Tls.{idle_of, tls_client-IsAccounted}
use dotproxy.Network.Ledger.Availability.{Accounted, availability-Accounted}
use dotproxy.Network.Ledger.Sharded.{held_by, sharded_client-IsAccounted}
use dotproxy.Tests.Peers.{peers, start_time, peers-DrawsBelow}
use dotproxy.Tests.Pool.{one_client, one_conn-IsValid}

abbrev two_clients : List TlsClient
two_clients = one_client ∷ one_client ∷ []

abbrev HasPool : TlsClient → Type 0
HasPool c = IsValid c.pool

two_clients-HasPool : All HasPool two_clients
two_clients-HasPool = (one_conn-IsValid, (one_conn-IsValid, tt))

abbrev upstreams : Client TlsClient
upstreams = tls_client peers

abbrev live : Sharded TlsClient
live = new_availability two_clients

-- The first client has failed 10 seconds ago, and is out for 200 ms.
abbrev one_failed : Sharded TlsClient
one_failed = record {
  clients = two_clients;
  last_error = λ _. start_time - 10_000_000_000;
  error_expiry = λ _. pos 200_000_000;
}

conn-Ends_example : Returns (λ r. Settled r.0.1) (Availability.conn upstreams peers 3 live [])
conn-Ends_example =
    conn-Ends HasPool upstreams peers start_time live [] (tls_client-Keeps peers) peers-DrawsBelow
      (omega arith, λ w. (omega arith, omega arith)) two_clients-HasPool (λ i. inl refl)

select_available-Selected_example :
    Returns (Selected peers one_failed []) (select_available peers one_failed [])
select_available-Selected_example = select_available-Selected peers one_failed [] peers-DrawsBelow

note_failure-Noted_example :
    Returns
      (λ r. Noted peers one_failed 0 start_time start_time r.0)
      (note_failure peers one_failed 0 [])
note_failure-Noted_example = note_failure-Noted peers one_failed 0 []

burst_overflows_example :
    Returns
      (λ r.
        (r.0.error_expiry 0 <ℤ pos 0)
        × ((t : Time) → r.0.last_error 0 ≤ t → IsEligible peers r.0 0 t))
      (burst peers 38 0 live [])
burst_overflows_example =
    burst_overflows peers start_time 0 live [] (λ w. (omega arith, omega arith)) (omega arith) refl

conn-FailedOver_example :
    Returns
      (λ r. All HasPool r.0.0 × FailedOver upstreams two_clients [] r)
      (Failover.conn upstreams two_clients [])
conn-FailedOver_example =
    conn-FailedOver upstreams HasPool two_clients [] (tls_client-Keeps peers) two_clients-HasPool

abbrev second_next : RoundRobin TlsClient
second_next = record { clients = two_clients; index = 1 }

conns-WasAsked_example :
    Returns
      (λ r.
        (i : ℕ) (c : TlsClient)
        → get_elem? two_clients i ≡ some c
        → (c' : TlsClient) × (get_elem? r.0.clients i ≡ some c') × WasAsked upstreams c c')
      (conns upstreams 2 second_next [])
conns-WasAsked_example =
    conns-WasAsked upstreams HasPool (tls_client-Keeps peers) second_next [] (omega arith)
      two_clients-HasPool

conn-Asked_example :
    (two_clients ≡ []) × (Historical.conn upstreams two_clients [] ≡ panic)
    ⊎ Returns
        (λ r. All HasPool r.0.0 × Asked upstreams two_clients r.0.0 r.0.1 [] r.1)
        (Historical.conn upstreams two_clients [])
conn-Asked_example =
    conn-Asked upstreams HasPool two_clients [] (tls_client-Keeps peers) two_clients-HasPool

sharded_client-IsAccounted_example :
    IsAccounted
      (IsServing upstreams peers HasPool)
      (held_by HasPool idle_of)
      (sharded_client upstreams peers 3)
sharded_client-IsAccounted_example =
    sharded_client-IsAccounted HasPool idle_of upstreams (tls_client-IsAccounted peers) peers 3
      peers-DrawsBelow

availability-Accounted_example :
    Returns
      (λ r.
        Settled r.0.1
        × Accounted HasPool idle_of upstreams (tls_client-IsAccounted peers) peers live [] r)
      (Availability.conn upstreams peers 3 live [])
availability-Accounted_example =
    availability-Accounted HasPool idle_of upstreams (tls_client-IsAccounted peers) peers start_time
      live [] peers-DrawsBelow (omega arith, λ w. (omega arith, omega arith)) two_clients-HasPool
      (λ i. inl refl)

-- Two clients; one call has chosen the first, and a second call has arrived.
abbrev two_calls : Interleaved.System
two_calls = record { index = 0; calls = to_choose ∷ to_load 0 ∷ [] }

first_chose : Interleaved.turn 2 to_choose 0 ≡ ok (to_load 0, 0)
unfolding Interleaved.turn
first_chose = refl

two_calls-Steps : Steps 2 two_calls
two_calls-Steps =
    Steps.arrives
      (Steps.takes_turn [] [] to_choose (to_load 0) 0 (Steps.arrives Steps.start) refl first_chose)

Steps-IsInRange_example :
    Inv 2 two_calls × Returns (λ r. IsInRange 2 r.0 × (r.1 < 2)) (Interleaved.turn 2 (to_load 0) 0)
Steps-IsInRange_example =
    Steps-IsInRange 2 (to_choose ∷ []) [] (to_load 0) (omega arith) two_calls-Steps refl
