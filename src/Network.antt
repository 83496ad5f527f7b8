-- ===== src/Network.antt =====
-- internal/network: connections, their pool, the TLS client and the sharded clients.
pub mod World
pub mod Trace
pub mod Silence
pub mod Pool
pub mod Client
pub mod Ledger
pub mod Sharding
pub mod Server
pub mod Conn
pub mod Dialer
