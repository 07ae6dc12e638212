-- ===== src/Broker.antt =====
-- internal/broker/broker.go: client connections, their streams and the routes of subdomains.
-- A *ClientConn and a *Stream are shared (the server's read loop and the proxy keep them while the
-- maps change), so both stand on a heap and are named by their addresses. A stream's Response
-- channel is its buffer, of capacity 1; a Done channel is whether it is closed. The Request channel
-- and the connection's own Done channel are never used by the program and are left out. A method
-- runs under the broker's or the connection's lock, so it is one step.
pub mod Routes
pub mod Streams
pub mod Closing
pub mod Opening
pub mod Invariant
use go_tunnel.Base.{
  ℕ, ◌+◌, ◌%◌, ◌^◌, Bytes, Bool, true, false, Option, none, some, List, [], ◌∷◌, bytes_eq, nat_eq,
  ◌==◌, if◌then◌else◌,
}
use go_tunnel.GoMap
use go_tunnel.GoMap.{GoMap}

pub record Stream : Type 0 where
  pub id : ℕ
  pub tunnel_id : Bytes
  pub response : List Bytes
  pub done : Bool

-- `ws` names the WebSocket; `streams` leads from a stream id to the address of the stream.
pub record ClientConn : Type 0 where
  pub conn_id : Bytes
  pub user_id : Bytes
  pub ws : ℕ
  pub tunnels : List Bytes
  pub streams : GoMap ℕ ℕ

pub record Heap : Type 0 where
  pub conn_at : GoMap ℕ ClientConn
  pub stream_at : GoMap ℕ Stream
  pub next : ℕ

pub record Broker : Type 0 where
  pub connections : GoMap Bytes ℕ
  pub subdomain_to_conn : GoMap Bytes Bytes
  pub next_stream_id : ℕ
  pub heap : Heap

unfoldable pub new_broker : Broker
new_broker = record {
  connections = GoMap.empty;
  subdomain_to_conn = GoMap.empty;
  next_stream_id = 0;
  heap = record { conn_at = GoMap.empty; stream_at = GoMap.empty; next = 0 };
}

-- Writes through a pointer; a dangling one is never written.
abbrev pub set_conn : Broker → ℕ → ClientConn → Broker
set_conn b a c = record b { heap = record b.heap { conn_at = GoMap.put b.heap.conn_at a c } }

abbrev pub set_stream : Broker → ℕ → Stream → Broker
set_stream b a s = record b { heap = record b.heap { stream_at = GoMap.put b.heap.stream_at a s } }

abbrev pub conn : Broker → ℕ → Option ClientConn
conn b a = GoMap.get b.heap.conn_at a

abbrev pub stream : Broker → ℕ → Option Stream
stream b a = GoMap.get b.heap.stream_at a

-- The broker, and the address of the new connection.
unfoldable pub add_connection : Broker → Bytes → Bytes → ℕ → Broker × ℕ
add_connection b conn_id user_id ws =
    let a = b.heap.next in
    let c : ClientConn = record {
      conn_id = conn_id;
      user_id = user_id;
      ws = ws;
      tunnels = [];
      streams = GoMap.empty;
    } in
    (
      record b {
        connections = GoMap.put b.connections conn_id a;
        heap = record b.heap { conn_at = GoMap.put b.heap.conn_at a c; next = a + 1 };
      },
      a,
    )

-- conn.Tunnels = tunnelIDs, which handleConnect does.
unfoldable pub set_tunnels : Broker → ℕ → List Bytes → Broker
set_tunnels b a ids = elim (conn b a) [
  | none ↦ b
  | some c ↦ set_conn b a (record c { tunnels = ids })
]

-- close(s.Done), unless it is closed already.
unfoldable pub close_done : Broker → ℕ → Broker
close_done b a = elim (stream b a) [
  | none ↦ b
  | some s ↦ if s.done then b else set_stream b a (record s { done = true })
]

-- The loop of RemoveConnection over the streams of the connection.
unfoldable pub close_all : List (ℕ × ℕ) → Broker → Broker
unfolding close_done
close_all [] b = b
close_all ((id, a) ∷ rest) b = close_all rest (close_done b a)

abbrev pub routes_to : Bytes → Bytes → Bytes → Bool
routes_to conn_id sub cid = cid == conn_id

abbrev pub streams_of : Option ClientConn → List (ℕ × ℕ)
streams_of none = []
streams_of (some c) = GoMap.range c.streams

unfoldable pub remove_connection : Broker → Bytes → Broker
unfolding close_all
remove_connection b conn_id = elim (GoMap.get b.connections conn_id) [
  | none ↦ b
  | some a ↦
      let unrouted = record b {
        subdomain_to_conn = GoMap.delete_if b.subdomain_to_conn (routes_to conn_id);
      } in
      let closed = close_all (streams_of (conn b a)) unrouted in
      record closed { connections = GoMap.delete closed.connections conn_id }
]

unfoldable pub map_subdomain : Broker → Bytes → Bytes → Broker
map_subdomain b subdomain conn_id = record b {
  subdomain_to_conn = GoMap.put b.subdomain_to_conn subdomain conn_id;
}

unfoldable pub unmap_subdomain : Broker → Bytes → Broker
unmap_subdomain b subdomain = record b {
  subdomain_to_conn = GoMap.delete b.subdomain_to_conn subdomain;
}

unfoldable pub get_connection : Broker → Bytes → Option ℕ
get_connection b conn_id = GoMap.get b.connections conn_id

unfoldable pub get_connection_by_subdomain : Broker → Bytes → Option ℕ
get_connection_by_subdomain b subdomain = elim (GoMap.get b.subdomain_to_conn subdomain) [
  | none ↦ none
  | some conn_id ↦ GoMap.get b.connections conn_id
]

-- A new stream on the connection at the address: the broker, and the address of the stream. The
-- counter of stream ids is a uint32 and wraps.
unfoldable pub open_stream : Broker → ℕ → Bytes → Broker × ℕ
open_stream b a tunnel_id =
    let id = (b.next_stream_id + 1) % 2 ^ 32 in
    let at = b.heap.next in
    let s : Stream = record { id = id; tunnel_id = tunnel_id; response = []; done = false } in
    let opened = record b {
      next_stream_id = id;
      heap = record b.heap { stream_at = GoMap.put b.heap.stream_at at s; next = at + 1 };
    } in
    elim (conn b a) [
      | none ↦ (opened, at)
      | some c ↦ (set_conn opened a (record c { streams = GoMap.put c.streams id at }), at)
    ]

unfoldable pub close_stream : Broker → ℕ → ℕ → Broker
unfolding close_done
close_stream b a stream_id = elim (conn b a) [
  | none ↦ b
  | some c ↦ elim (GoMap.get c.streams stream_id) [
    | none ↦ b
    | some s ↦ set_conn (close_done b s) a (record c { streams = GoMap.delete c.streams stream_id })
  ]
]
