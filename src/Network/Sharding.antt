-- ===== src/Network/Sharding.antt =====
-- internal/network/sharding.go: one client made of several, under a load balancing policy.
pub mod Constants
pub mod RoundRobin
pub mod Historical
pub mod Availability
pub mod Failover
pub mod Interleaved
pub mod Policy
pub mod Parsing
