-- ===== src/Client.antt =====
-- internal/client/client.go: resolvePort, by which a client finds the local port for a stream. (Run
-- is in the child module Reconnect.)
pub mod Session
pub mod Handler
pub mod Steps
pub mod Ended
pub mod Quiet
pub mod Finish
pub mod Ordering
pub mod Connect
pub mod Ports
pub mod Reconnect
use go_tunnel.Base.{ℕ, Bytes, List, [], ◌∷◌, if◌then◌else◌}
use go_tunnel.Base.Int.{ℤ, pos}
use go_tunnel.Config.Types.{ClientTunnel}
use go_tunnel.Host.{has_suffix}

-- The loop; `fallback` is what follows it.
unfoldable pub port_loop : Bytes → ℤ → List ClientTunnel → ℤ
port_loop target_tunnel fallback [] = fallback
port_loop target_tunnel fallback (t ∷ rest) =
    let later = port_loop target_tunnel fallback rest in
    if has_suffix target_tunnel (b'-' ∷ t.subdomain) then t.port else later

abbrev pub first_port : List ClientTunnel → ℤ
first_port [] = pos 0
first_port (t ∷ rest) = t.port

unfoldable pub resolve_port : List ClientTunnel → Bytes → ℤ
unfolding port_loop
resolve_port tunnels target_tunnel = port_loop target_tunnel (first_port tunnels) tunnels
