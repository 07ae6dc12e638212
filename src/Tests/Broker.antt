-- ===== src/Tests/Broker.antt =====
-- internal/broker/broker.go: one connection with one route and one stream.
use go_tunnel.Base.{
  ℕ, ◌+◌, ◌<◌, ◌^◌, Bytes, bytes, bytes_beq, none, some, [], arith, ◌≡◌, refl, bytes_eq, nat_eq,
  if◌then◌else◌, ◌==◌,
}
use go_tunnel.GoMap
use go_tunnel.GoMap.Assoc.{find, without}
use go_tunnel.Broker.{
  ClientConn, Broker, new_broker, stream, add_connection, map_subdomain, open_stream,
  remove_connection, get_connection, get_connection_by_subdomain,
}
use go_tunnel.Broker.Streams.{Inv, closed_stream}
use go_tunnel.Broker.Routes.{remove_connection_lem, route_without}
use go_tunnel.Broker.Invariant.{step, adds, maps, opens, step-Inv, new_broker-Inv}

program : Unit {0}
unfolding bytes_beq GoMap.empty GoMap.get GoMap.put find without new_broker add_connection
    map_subdomain open_stream get_connection step
program = tt

-- The connection is at address 0, its stream 1 at address 1.
abbrev connected : Broker
connected = step new_broker (adds (bytes "c1") (bytes "ann") 7)

abbrev pub routed : Broker
routed = step connected (maps (bytes "app") (bytes "c1"))

abbrev opened : Broker
opened = step routed (opens 0 (bytes "c1-app"))

pub routed-Inv : Inv routed
routed-Inv =
    step-Inv connected (maps (bytes "app") (bytes "c1")) tt
      (step-Inv new_broker (adds (bytes "c1") (bytes "ann") 7) tt new_broker-Inv)

pub room : routed.next_stream_id + 1 < 2 ^ 32
unfolding program
room = omega arith

abbrev client : ClientConn
client = record {
  conn_id = bytes "c1";
  user_id = bytes "ann";
  ws = 7;
  tunnels = [];
  streams = GoMap.empty;
}

abbrev with_stream : ClientConn
with_stream = record client { streams = GoMap.put client.streams 1 1 }

remove_connection_lem_example :
    let b' = remove_connection opened (bytes "c1") in
    ((cid : Bytes)
      → get_connection b' cid ≡ (if bytes "c1" == cid then none else get_connection opened cid))
    × ((s : Bytes)
        → get_connection_by_subdomain b' s
          ≡ route_without opened (bytes "c1") (GoMap.get opened.subdomain_to_conn s))
    × ((id x : ℕ)
        → GoMap.get with_stream.streams id ≡ some x
        → stream b' x ≡ closed_stream (stream opened x))
unfolding program
remove_connection_lem_example = remove_connection_lem opened (bytes "c1") 0 with_stream refl refl
