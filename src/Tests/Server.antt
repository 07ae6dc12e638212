-- ===== src/Tests/Server.antt =====
-- internal/server/server.go: clients that connect to a new gateway. A message is its own JSON text
-- here.
use go_tunnel.Base.{
  ℕ, Bytes, bytes, bytes_beq, true, false, none, some, List, [], ◌∷◌, map, ◌≡◌, refl, bytes_eq,
}
use go_tunnel.Base.Int.{ℤ, pos}
use go_tunnel.Base.Member.{contains}
use go_tunnel.Base.Result.{ok}
use go_tunnel.GoMap
use go_tunnel.GoMap.Assoc.{find, without, keep}
use go_tunnel.Protocol.{Register, TunnelConfig}
use go_tunnel.Protocol.Frame.{Json, encode_control_message}
use go_tunnel.Registry.{
  Tunnel, new_memory_registry, reserve_all, register, insert_tunnel, with_ttl, too_long, get_by_id,
  get_by_subdomain, subdomain_taken, unregister, remove_tunnel,
}
use go_tunnel.Auth.{new_memory_token_store}
use go_tunnel.Broker.{
  new_broker, add_connection, map_subdomain, unmap_subdomain, remove_connection, close_all,
  close_done, set_tunnels, get_connection_by_subdomain,
}
use go_tunnel.Server.{
  Codecs, Server, new_server, send_control_response, unmap_tunnel, drop_tunnel, cleanup_tunnels,
  cleanup_connection,
}
use go_tunnel.Server.Connect.{
  tunnel_id, new_tunnel, added, choose_conn_id, accept, serving, finish_registration,
  register_tunnels,
}
use go_tunnel.Server.Loop.{subdomain_of}
use go_tunnel.Server.Undo.{SameGateway, IsFresh}
use go_tunnel.Server.Rollback.{accept_rollback, connect_disconnect}
use go_tunnel.Registry.Invariant.{Inv, new_memory_registry-Inv}
use go_tunnel.Server.Outcome.{accept-serving, duplicate_unroutes}
use go_tunnel.Tests.Auth.{ann_token}

program : Unit {0}
unfolding bytes_beq GoMap.empty GoMap.get GoMap.put GoMap.delete GoMap.delete_if GoMap.range find
    without keep encode_control_message new_memory_registry reserve_all register insert_tunnel
    with_ttl too_long get_by_id get_by_subdomain unregister remove_tunnel new_memory_token_store
    new_broker add_connection map_subdomain unmap_subdomain remove_connection close_all close_done
    set_tunnels get_connection_by_subdomain new_server send_control_response unmap_tunnel
    drop_tunnel cleanup_tunnels cleanup_connection tunnel_id new_tunnel added choose_conn_id accept
    finish_registration register_tunnels
program = tt

abbrev no_json : {A : Type 0} → Json A
no_json = record { marshal = λ a. none; unmarshal = λ b. none }

abbrev pub toy_codecs : Codecs
toy_codecs = record {
  register = no_json;
  open_stream = no_json;
  stream_data = no_json;
  close_stream = no_json;
  control_response = record { marshal = λ r. some r.message; unmarshal = λ b. none };
}

abbrev pub clock : ℕ → ℤ
clock n = pos n

abbrev pub started : Server
started = new_server (bytes "key") (bytes "admin" ∷ []) (pos 20) (pos 60)

abbrev config : Bytes → TunnelConfig
config subdomain = record {
  name = subdomain;
  protocol = bytes "http";
  port = pos 3000;
  subdomain = subdomain;
}

abbrev client : List TunnelConfig → Register
client tunnels = record {
  kind = bytes "register";
  token = ann_token.id;
  tunnels = tunnels;
  client_id = bytes "c1";
  metadata = record { os = bytes "linux"; version = bytes "1" };
}

-- One client asks for a free subdomain and then a reserved one, the other for free ones alone.
abbrev greedy : Register
greedy = client (config (bytes "app") ∷ config (bytes "admin") ∷ [])

abbrev pub modest : Register
modest = client (config (bytes "app") ∷ config (bytes "web") ∷ [])

abbrev served : Server
served = (accept toy_codecs clock started 7 modest ann_token).0

abbrev ids : List Bytes
ids = bytes "c1-app" ∷ bytes "c1-web" ∷ []

started-Inv : Inv started.registry
unfolding new_server
started-Inv = new_memory_registry-Inv (bytes "admin" ∷ []) (pos 20) (pos 60)

started-IsFresh : (c : Bytes) → IsFresh started c
unfolding new_server new_broker new_memory_registry
started-IsFresh c = record {
  no_connection = GoMap.get-empty {V = ℕ} c;
  no_route = λ sub h. cc (h, GoMap.get-empty {V = Bytes} sub);
  no_tunnel = λ sub. GoMap.get-empty {V = Tunnel} (tunnel_id c sub);
  free_unrouted = λ sub h. GoMap.get-empty {V = Bytes} sub;
}

served_by :
    accept toy_codecs clock started 7 modest ann_token ≡ (served, serving 0 (bytes "c1") ids)
unfolding program
served_by = refl

accept_rollback_example : SameGateway started (accept toy_codecs clock started 7 greedy ann_token).0
unfolding program
accept_rollback_example =
    accept_rollback toy_codecs clock started 7 greedy ann_token (started-IsFresh (bytes "c1")) refl

connect_disconnect_example : SameGateway started (cleanup_connection served (bytes "c1") ids)
unfolding choose_conn_id
connect_disconnect_example =
    connect_disconnect toy_codecs clock started served 7 0 modest ann_token (bytes "c1") ids
      (started-IsFresh (choose_conn_id (bytes "c1") (pos 1))) served_by

accept-serving_example :
    (contains (map subdomain_of modest.tunnels) (bytes "web") ≡ true
      → ((t : Tunnel) × (get_by_subdomain served.registry (bytes "web") ≡ ok (some t))
          × (t.subdomain ≡ bytes "web")
          × (get_by_id served.registry (tunnel_id (bytes "c1") (bytes "web")) ≡ ok t))
        × (get_connection_by_subdomain served.broker (bytes "web") ≡ some 0))
    × (contains (map subdomain_of modest.tunnels) (bytes "web") ≡ false
        → (get_by_subdomain served.registry (bytes "web")
            ≡ get_by_subdomain started.registry (bytes "web"))
          × (get_connection_by_subdomain served.broker (bytes "web")
              ≡ get_connection_by_subdomain started.broker (bytes "web")))
accept-serving_example =
    accept-serving toy_codecs clock started served 7 0 modest ann_token (bytes "c1") ids
      (bytes "web") (started-IsFresh (bytes "c1")) started-Inv served_by

-- The client connects a second time, and is refused since its own tunnels are still there.
duplicate_unroutes_example :
    let s' = (accept toy_codecs clock served 8 modest ann_token).0 in
    (get_connection_by_subdomain s'.broker (bytes "web") ≡ none) × (s'.registry ≡ served.registry)
unfolding program
duplicate_unroutes_example =
    duplicate_unroutes toy_codecs clock served 8 modest ann_token (config (bytes "app"))
      (config (bytes "web") ∷ []) subdomain_taken (bytes "web") refl refl refl
