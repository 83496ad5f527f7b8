-- ===== src/Network/Sharding/Constants.antt =====
-- internal/network/sharding.go: the type LoadBalancingPolicy, an int, and its constants, which count from 0.
use dotproxy.Base.{ℕ}
use dotproxy.Base.Int.{ℤ}

abbrev pub LoadBalancingPolicy : Type 0
LoadBalancingPolicy = ℤ

abbrev pub round_robin : ℕ
round_robin = 0

abbrev pub random : ℕ
random = 1

abbrev pub historical_connections : ℕ
historical_connections = 2

abbrev pub availability : ℕ
availability = 3

abbrev pub failover : ℕ
failover = 4
