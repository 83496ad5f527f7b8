-- ===== src/Lib.antt =====
-- dotproxy proxies plain DNS requests, by UDP or TCP, to upstream servers over TLS. A handler reads
-- a request, asks a client for an upstream connection, writes the request to it, reads the response
-- and writes it back. A client is one upstream server with a pool of persistent connections, or
-- several such clients under a load balancing policy. The pool keeps its connections in an MRU
-- queue, which is a priority queue by the second of the last use.
--
-- The files and the code:
--   Data/PriorityQueue  internal/data/priority.go, PriorityQueue and its methods
--   Data/Heap           Go's container/heap, by which internal/data works
--   Data/Mru            internal/data/mru.go, MRUQueue
--   Network/World       what the code asks of its surroundings, and the trace of it
--   Network/Pool        internal/network/persistent.go, PersistentConnPool and PersistentConn
--   Network/Client      internal/network/client.go, Client, Stats and TLSClient
--   Network/Sharding    internal/network/sharding.go: RoundRobin also has the random policy, and
--                       Policy has NewShardedClient and aggregateClientsStats, and Parsing has
--                       ParseLoadBalancingPolicy
--   Network/Conn        internal/network/conn.go, UDPConn and TCPConn
--   Network/Dialer      internal/network/client.go, the function tlsDialer of NewTLSClient
--   Network/Ledger      the accounting for connections from one component to the next
--   Network/Silence     that a TLS client writes nothing when it is asked for a connection
--   Network/Server      internal/network/server.go, both servers over any handler: Listening has
--                       ListenAndServe, and Running the goroutines of the program
--   Meta/Config         internal/meta/config.go, the configuration, ParseConfig and Config.validate
--   Protocol/DnsProxy   internal/protocol/dns_proxy.go, DNSProxyHandler; Service puts it on the servers
--   Log                 internal/log/level.go and console.go, Level and ConsoleLogger
--   Metrics             internal/metrics/hook.go, the hooks and what they report to statsd
--   Command             cmd/dotproxy/main.go, from the flags to the running servers; Wiring/Goroutines has
--                       all the goroutines of the program, over the servers and the pools
--   Base                numbers, lists, Go's time, and the ways in which a call ends
--   Tests               runs of the results at concrete values
--
-- State is passed explicitly: an operation takes the state and a trace of what the program has
-- asked and done, and gives the new ones, or a panic. The clock, the draws, the dialer, and a
-- connection's Read, Write and Close are answered by an environment from the trace, so that any
-- behaviour of peers and of time is an environment. What the results assume of it is named: draws
-- are in range (DrawsBelow), and a Read stores bytes (ReadsBytes). Metrics, less their latencies,
-- are events of the trace; logs are left out. The interface Client is a record of its two methods,
-- and Keeps is its contract: from a valid state Conn ends, in a valid state. The handler and the
-- sharded clients take any client that keeps it, and a sharded client is a client again. IsAccounted
-- (Network/Ledger) is the contract with what becomes of the connections.
--
-- A method under a mutex is one step. The pool among its users is a step relation
-- (Network/Pool/System): requests, closes, destructions and the rounds of the filling loop come in
-- any order. So are the servers (Network/Server/System): turns of the UDP loops and of the TCP
-- loop, and the goroutines of accepted connections, come in any order, and a handler's call is one
-- step. Network/Server/Running is nearer to the code: its steps are those of the goroutines that
-- main and the servers start, the binding of the addresses and the panics included. In
-- Command/Wiring/Goroutines these take turns with all the others of the program: the loop that fills
-- each pool, a round at a time, the goroutines that close or destroy a connection, and those that
-- count a client's call. There a connection that is closed may go back to any of the pools, its own
-- among them, since the trace does not tell whose it was. The goroutines of
-- EmitProcess (Metrics/Sequence) are step relations too, of which each load, report and addition is
-- a step, and so are the reads and writes of the round robin index, which has no lock
-- (Network/Sharding/Interleaved). The goroutines of the handler that close or destroy a connection
-- are marked in the trace where they start.
--
-- Bounds: integers are unbounded but for the Durations that overflow in the code (wrap_int64), the
-- 16-bit size header and the counter of EmitProcess. The loops of container/heap have fuel for one
-- round per level or place. The recursion of the availability policy's Conn has fuel; one unit more
-- than there are clients is enough while the call takes less than 100 ms. Other loops are
-- structural.
--
-- Not modelled: the reading of flags, the error reporter, and the logs of main and of the
-- handler, which are I/O or calls of libraries. Parameters: net.Listen and net.ListenPacket,
-- ioutil.ReadFile and yaml.Unmarshal, the comparisons of a float64, strings.ToLower and the
-- formatting of messages and times, the constructor of the statsd client, the text of an IP
-- address, and the names of policies and of levels, since these stand in generated files. A call
-- that runs out of fuel is a turn that no step takes: under the availability policy Conn ends
-- only while the clock goes on slowly enough, and the rest of the program goes on without it.
pub mod Base
pub mod Data
pub mod Network
pub mod Protocol
pub mod Meta
pub mod Metrics
pub mod Log
pub mod Command
pub mod Tests
