-- ===== src/Protocol.antt =====
-- internal/protocol: the proxy between a DNS client and the upstream servers.
pub mod DnsProxy
