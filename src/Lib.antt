-- ===== src/Lib.antt =====
-- ProxyForge, the Go backend under backend/: a proxy server whose clients speak SOCKS5, HTTP or
-- Trojan, and are sent out through WARP tunnels or through remote agents. A client's credentials name
-- outbounds (internal/proxy/manager.go, trojan.go), these are dialled with a failover policy
-- (mixed.go, dial_policy.go), and the bytes are relayed, on a websocket through a batching writer
-- (websocket_relay.go). An agent is dialled over a stream with a handshake (internal/agentproto). The
-- scheduler binds WARP accounts to slots in the database, tests and deletes accounts, and has the
-- Manager start and stop the tunnels that the database asks for.
--
-- Which file models which part:
--   Prelude        lists, tests, strings as lists of bytes, maps as association lists, decimals
--   Io, Io.Writers Go's io.Reader and io.Writer: a reader is the list of the bytes still to come, a
--                  writer keeps what it has accepted and answers by a script, the network's part;
--                  `write_full` is agentproto's writeFull
--   AppLog         internal/applog/store.go: the log of the day, read by offset
--   AgentProto     internal/agentproto/proto.go: WriteRequest, ReadRequest, WriteTarget, ReadTarget,
--                  WriteStatus, ReadStatus; Packets has PacketConn.Read and Write
--   Proxy.Net      what is used of the package net: parsing and printing of an address is a parameter
--   Proxy.Dial     isPermanentTargetDialError, dialViaNetworkWithPolicy, dialVia, dialUDPVia
--   Proxy.Session  one client connection of mixed.go: unread input, answers, activity lines
--   Proxy.Socks5   handleSOCKS5, socks5Auth, socks5Reply
--   Proxy.Http     handleHTTP, httpAuthSession, httpConnect, httpForward; what net/http makes of the
--                  bytes of a request is a parameter
--   Proxy.Trojan   Auth, Address and Packet: trojan.go and trojan_udp.go's wire formats
--                  Handler is handleTrojan, Relay the UDP relay with its associations
--   Proxy.Manager  State, Score, Rank, Select, Resolve: the selection, the rotation and the
--                  credentials of manager.go, and resolveTrojan of trojan.go
--                  Reconcile is Reconcile, startTunnels and StopTunnel, Reconcile.Health is HealthCheck,
--                  Listen is reconcileServerLocked
--   Proxy.Usage    the usage queue of manager.go: recordUsage, runUsageWriter, persistUsage, Stop
--   Proxy.Endpoint endpointCandidates of endpoint.go: the addresses that a tunnel tries
--   Proxy.Start   newTunnel of tunnel.go: which transport and endpoint is tried, what is closed
--   Proxy.Family  localAddrsFromConfig, DialContext and the resolution by the system of tunnel.go
--   Proxy.Bind    reserved_bind.go: the UDP sockets of a WireGuard tunnel and its reserved bytes
--   Proxy.Batch    timedBatchWriter of websocket_relay.go
--   Proxy.Activity the activityTracker of activity.go: live sessions and the limit on failure lines
--   AgentHub       internal/agenthub/hub.go: Accept in two steps (register, leave), pings, counters,
--                  ResolveEgress; Stream is DialContext; Sound, Leaving and Entering prove the
--                  invariant of the step relation in Reachable
--   Models         internal/models/models.go: Account, ProxySlot, AccountTest
--   Database       the statements of internal/db/db.go on slots, accounts, tests and the IP pool, on
--                  lists of rows; any statement may fail. Clients is AddClientUsage
--   Scheduler      internal/scheduler/scheduler.go: Quality (badQuality, accountUsable, the ranking),
--                  Pool (requiredAccountRegistrations), Binding (rebindProxySlots), Cleanup
--                  (pruneStoredBadAccounts, pruneTestResults, applyDedup), Probe (probeProxySlots)
--   Runs           inputs and runs of the theorems
--
-- Conventions. A Go string is the list of its bytes; TrimSpace, ToLower, ToUpper and EqualFold are
-- those of ASCII. A method that holds a mutex
-- from start to end is one step; Reconcile and HealthCheck are one for each time they take it. Times are nanoseconds
-- in ℕ, and a difference of times stops at 0, as the clock does not go back. Counters that Go keeps
-- in an int64 are unbounded; the rotation's cursor and the timer's generation wrap at 2 ^ 64. A
-- float64 is its word, with the operations as a parameter. The order of a Go map is that of the
-- association list. sort.Slice is a sort by insertion. A dial, an address's text, the hashes of
-- crypto and the remote agents' resolver are parameters.
--
-- Fuel. writeTrojanUDPPacket's loop has one round more than its payload has bytes; the batching
-- writer's has one per byte. Both are enough. The other loops recurse on a list.
--
-- Not modelled: deadlines and delays of connections and timers, accepting a connection, the relay's
-- copying, what a tunnel is made of (third-party network stacks) and its probe,
-- SQLite and the reading of rows, the scheduler's tickers and registrations, the HTTP pages.

pub mod Prelude
pub mod Io
pub mod AppLog
pub mod Models
pub mod Database
pub mod Scheduler
pub mod AgentProto
pub mod AgentHub
pub mod Proxy
pub mod Runs
