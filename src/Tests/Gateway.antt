-- ===== src/Tests/Gateway.antt =====
-- A gateway that has accepted a client and opened a stream for a request.
use go_tunnel.Base.{
  ◌+◌, ◌^◌, ◌<◌, Bytes, bytes, bytes_beq, [], ◌∷◌, ◌≢◌, refl, arith, bytes_eq, nat_eq,
}
use go_tunnel.Base.Int.{pos}
use go_tunnel.GoMap
use go_tunnel.GoMap.Assoc.{find, without}
use go_tunnel.Registry.{
  Tunnel, new_memory_registry, register, insert_tunnel, with_ttl, too_long, reserve_all,
}
use go_tunnel.Broker.{new_broker, add_connection, map_subdomain, set_tunnels}
use go_tunnel.Protocol.Frame.{encode_control_message}
use go_tunnel.Server.{Server, new_server, send_control_response}
use go_tunnel.Server.Connect.{
  accept, choose_conn_id, tunnel_id, new_tunnel, added, register_tunnels, finish_registration,
}
use go_tunnel.Proxy.{serve_http, panicked}
use go_tunnel.Gateway.{Reach, accepts, asks, here, next, Unclaimed}
use go_tunnel.Gateway.Sound.{IsSound}
use go_tunnel.Gateway.Reachable.{reachable-IsSound}
use go_tunnel.Tests.Auth.{toy_mac, ann_token}
use go_tunnel.Tests.Proxy.{toy_setup, get_page, both}
use go_tunnel.Tests.Server.{started, clock, modest}

program : Unit {0}
unfolding bytes_beq GoMap.empty GoMap.get GoMap.put GoMap.range find without new_memory_registry
    register insert_tunnel with_ttl too_long reserve_all new_broker add_connection map_subdomain
    set_tunnels encode_control_message new_server send_control_response accept choose_conn_id
    tunnel_id new_tunnel added register_tunnels finish_registration
program = tt

abbrev accepted : Server
accepted = (accept toy_setup.codecs clock started 7 modest ann_token).0

abbrev asked : Server
asked = (serve_http toy_setup accepted get_page both).0

started-Unclaimed : (cid : Bytes) → Unclaimed started.registry cid
unfolding new_server new_memory_registry
started-Unclaimed cid sub h = GoMap.get-empty {V = Tunnel} (tunnel_id cid sub)

room : accepted.broker.next_stream_id + 1 < 2 ^ 32
unfolding program
room = omega arith

asked-Reach : Reach toy_setup toy_mac started asked
asked-Reach =
    next
      (next here (
        accepts clock 7 modest ann_token
          (started-Unclaimed (choose_conn_id modest.client_id (clock 1))) refl))
      (asks get_page both room refl)

reachable-IsSound_example :
    IsSound asked × ((serve_http toy_setup asked get_page both).1 ≢ panicked)
reachable-IsSound_example =
    reachable-IsSound toy_setup toy_mac (bytes "key") (bytes "admin" ∷ []) (pos 20) (pos 60) asked
      get_page both asked-Reach
