-- ===== src/Lib.antt =====
-- GoTunnel is a reverse-tunnel gateway. A client opens a WebSocket to the gateway, sends a register
-- message with a token and the subdomains that it wants, and then answers streams; the gateway's
-- proxy turns an HTTP request for a subdomain into a stream of the client that owns it. These files
-- model the gateway's core and prove what it promises.
--
-- The parts, and the files that model them:
--   Protocol, Protocol.Frame: internal/protocol/protocol.go, the messages and the byte layout of a
--     frame (EncodeFrame, DecodeFrame, EncodeControlMessage, DecodeControlMessage).
--   Registry: internal/registry/registry.go, the tunnels by id and by subdomain (Register,
--     Unregister, GetByID, GetBySubdomain, GetByOwner, GetByConnID, List, UpdateHeartbeat,
--     IsSubdomainReserved, CleanExpired). Registry.Table: the table of tunnels that it implements.
--   Auth: internal/auth/auth.go, the signed tokens (CreateToken, ValidateToken, RevokeToken,
--     ListTokens, ListAllTokens).
--   Broker: internal/broker/broker.go, the connections of the clients, their streams and the routes
--     of subdomains (AddConnection, RemoveConnection, MapSubdomain, UnmapSubdomain, GetConnection,
--     GetConnectionBySubdomain, OpenStream, CloseStream).
--   Metrics: internal/metrics/metrics.go, as the sequence of the calls of its methods.
--   Server, Server.Connect, Server.Messages: internal/server/server.go, NewServer, handleConnect,
--     readLoop with its handlers, cleanupConnection and sendControlResponse, over all of the above.
--   Host: internal/proxy/proxy.go, extractSubdomain; Proxy: the same file, ServeHTTP, from the request
--     to the wait for the client (`serve_http`) and from there to the answer (`resume`).
--   Admin: internal/admin/admin.go, requireAdmin and the handlers of the admin API.
--   Config, Config.Types: internal/config/config.go, the types, the defaults, Load, LoadClientConfig
--     and applyServerEnv. Logging: internal/logging/logging.go, New, Init, Default and parseLevel.
--   RateLimiter: internal/server/ratelimit.go, Allow, Middleware and cleanupLoop; its child Address is
--     net.SplitHostPort.
--   Server.Start: internal/server/server.go, NewServer from a configuration, the routes of Start and
--     handleHealth. Command: cmd/gotunnel/main.go, main, runServer and runClient.
--   Client: internal/client/client.go, resolvePort; Client.Connect: Connect and heartbeatLoop;
--     Client.Session: the client's state, readLoop and what it sends; Client.Handler:
--     handleOpenStream in two stages around its select; Client.Steps: the read loop, the handlers,
--     which are goroutines, and the resets of Run as steps of one system; Client.Reconnect: Run.
--   Gateway: the handlers of the gateway as steps on its one shared state. A handshake is one step
--     there, from AddConnection to the reply, as a request is one up to its select: what other
--     handlers do between the locked calls of one of them is not covered, but for the case of
--     EndToEnd.Overtaken, a request between the route of a tunnel and the reply.
--   EndToEnd: a client and the gateway together, over what one sends and the other reads.
-- The shared ground is Base (bytes, machine integers, decimal and hexadecimal text), GoMap (Go's
-- built-in map, with its representation closed) and GoTime (time.Duration with its wrap-around and
-- saturation). Tests holds concrete runs.
--
-- How the code corresponds. A struct is a record and a method a function from the old state to the
-- new one and the results; an error is a constructor, `none` where nil is returned. A method that
-- locks is one step. A text is the list of its bytes, an int a ℤ, a uint32 a ℕ below 2 ^ 32 with its
-- wrap-around written out. The order in which Go ranges over a map is open; the theorems say nothing
-- of it. A *Tunnel and a *Token are stored by value, since only the map's own methods write them; a
-- *ClientConn and a *Stream are shared, so the broker has a heap of them and they are addresses. A
-- function that reads the clock takes the time, or a clock of which it takes one reading after the
-- other.
--
-- Parameters: HMAC-SHA256 (Auth.Mac, a function whose results are bytes), encoding/json
-- (Protocol.Frame.Json, one pair of functions for each type of message), golang.org/x/time/rate
-- (RateLimiter.Buckets), the YAML decoder, the files and the environment (Config.Machine), package
-- flag, the random bytes of CreateToken, the clock, case mapping and trimming of texts that are not
-- ASCII (Host.Unicode), what comes of a request to the local service, whether a dial or a write
-- succeeds and a request's body can be read, the choice of a select with two cases ready, and what
-- other goroutines do between two messages (Server.Messages.Event). The fuel of the decimal printer
-- is the number plus one, more than its digits; Base.Decimal proves that enough. Nothing else has
-- fuel: the loops run over lists.
--
-- Not modelled: the transport (net/http, gorilla/websocket, crypto/tls, signals), what a logger
-- writes, Prometheus and its endpoint, the printing of the command line and the unused error codes.
-- An http.ResponseWriter is the list of the calls on it.
pub mod Base
pub mod GoMap
pub mod GoTime
pub mod Protocol
pub mod Registry
pub mod Auth
pub mod Broker
pub mod Metrics
pub mod Server
pub mod Admin
pub mod Host
pub mod Proxy
pub mod Config
pub mod Gateway
pub mod RateLimiter
pub mod Client
pub mod EndToEnd
pub mod Logging
pub mod Command
pub mod Tests
