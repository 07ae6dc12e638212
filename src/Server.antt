-- ===== src/Server.antt =====
-- internal/server/server.go: the state of the gateway, the control responses that it sends and the
-- clean-up of a connection. The handshake and the read loop are in the child modules. JSON and the
-- HMAC are parameters; log calls are left out. A write to a WebSocket is recorded in `sent`, newest
-- first: whether it succeeds changes nothing but a log line.
pub mod Connect
pub mod Messages
pub mod CleanUp
pub mod Registered
pub mod Loop
pub mod Undo
pub mod Rollback
pub mod Outcome
pub mod Start
pub mod Sent
pub mod Replies
use go_tunnel.Base.{ℕ, Bytes, bytes, Option, none, some, List, [], ◌∷◌, ◌++◌, map}
use go_tunnel.Base.Int.{ℤ}
use go_tunnel.Base.Result.{Result, ok, err}
use go_tunnel.Protocol.{
  Register, OpenStream, StreamData, CloseStream, ControlResponse, frame_control_response,
}
use go_tunnel.Protocol.Frame.{Json, encode_control_message}
use go_tunnel.Registry
use go_tunnel.Registry.{
  MemoryRegistry, RegistryError, subdomain_reserved, subdomain_taken, subdomain_too_long,
  tunnel_not_found,
}
use go_tunnel.Auth.{
  MemoryTokenStore, new_memory_token_store, AuthError, token_not_found, token_expired,
  token_revoked, invalid_token, invalid_scope, generating_random,
}
use go_tunnel.Broker
use go_tunnel.Broker.{Broker}
use go_tunnel.Metrics.{MetricCall, inc_active_tunnels, dec_active_tunnels}

-- What encoding/json makes of each type of message.
pub record Codecs : Type 0 where
  pub register : Json Register
  pub open_stream : Json OpenStream
  pub stream_data : Json StreamData
  pub close_stream : Json CloseStream
  pub control_response : Json ControlResponse

-- The configuration, the proxy, the admin API and the rate limiter are other modules.
pub record Server : Type 0 where
  pub registry : MemoryRegistry
  pub broker : Broker
  pub auth : MemoryTokenStore
  pub metrics : List MetricCall
  pub sent : List (ℕ × Bytes)

-- NewServer, of the values that it reads from the configuration.
unfoldable pub new_server : Bytes → List Bytes → ℤ → ℤ → Server
new_server token_signing_key reserved_subdomains max_subdomain_length default_ttl_seconds = record {
  registry =
      Registry.new_memory_registry reserved_subdomains max_subdomain_length default_ttl_seconds;
  broker = Broker.new_broker;
  auth = new_memory_token_store token_signing_key;
  metrics = [];
  sent = [];
}

abbrev pub registry_error_text : RegistryError → Bytes
registry_error_text subdomain_reserved = bytes "subdomain is reserved"
registry_error_text subdomain_taken = bytes "subdomain is already taken"
registry_error_text subdomain_too_long = bytes "subdomain exceeds maximum length"
registry_error_text tunnel_not_found = bytes "tunnel not found"

abbrev pub auth_error_text : AuthError → Bytes
auth_error_text token_not_found = bytes "token not found"
auth_error_text token_expired = bytes "token expired"
auth_error_text token_revoked = bytes "token revoked"
auth_error_text invalid_token = bytes "invalid token"
auth_error_text (invalid_scope scope) = bytes "invalid scope: " ++ scope
auth_error_text generating_random = bytes "generating random token"

-- A call of the metrics.
abbrev pub count : Server → MetricCall → Server
count s c = record s { metrics = c ∷ s.metrics }

abbrev pub write_message : Server → ℕ → Option Bytes → Server
write_message s ws none = s
write_message s ws (some frame) = record s { sent = (ws, frame) ∷ s.sent }

unfoldable pub send_control_response : Codecs → Server → ℕ → ℕ → Bytes → Server
send_control_response codecs s ws code message = write_message s ws (
    encode_control_message codecs.control_response frame_control_response
      (record { code = code; message = message }))

-- The two halves of one round of cleanupConnection.
unfoldable pub unmap_tunnel : Server → Bytes → Server
unmap_tunnel s id = elim (Registry.get_by_id s.registry id) [
  | ok t ↦ record s { broker = Broker.unmap_subdomain s.broker t.subdomain }
  | err e ↦ s
]

unfoldable pub drop_tunnel : Server → Bytes → Server
drop_tunnel s id =
    let (registry, error) = Registry.unregister s.registry id in
    elim error [
      | none ↦ count (record s { registry = registry }) dec_active_tunnels
      | some e ↦ record s { registry = registry }
    ]

unfoldable pub cleanup_tunnels : Server → List Bytes → Server
unfolding unmap_tunnel drop_tunnel
cleanup_tunnels s [] = s
cleanup_tunnels s (id ∷ rest) = cleanup_tunnels (drop_tunnel (unmap_tunnel s id) id) rest

unfoldable pub cleanup_connection : Server → Bytes → List Bytes → Server
unfolding cleanup_tunnels
cleanup_connection s conn_id tunnel_ids =
    let s' = cleanup_tunnels s tunnel_ids in
    record s' { broker = Broker.remove_connection s'.broker conn_id }
