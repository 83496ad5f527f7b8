-- ===== src/Tests.antt =====
-- Concrete runs of the theorems, by the part of the program.
mod Peers
mod Data
mod Pool
mod Sharding
mod Protocol
mod Conn
mod Meta
mod Metrics
mod Log
mod Server
mod Command
mod Goroutines
