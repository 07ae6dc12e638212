-- ===== src/EndToEnd/Overtaken.antt =====
-- internal/server/server.go, handleConnect, internal/proxy/proxy.go, ServeHTTP, and
-- internal/client/client.go, Connect: a request between the route of a tunnel and the reply to its client.
use go_tunnel.Base.{Bytes, some, nat_eq, bytes_eq}
use go_tunnel.GoMap
use go_tunnel.Registry
use go_tunnel.Broker
use go_tunnel.Server.{Server}
use go_tunnel.Client.Connect.{Link}

-- The client reads this first.
abbrev pub reading : Link → Bytes → Link
reading link raw = record link { first = some raw }
