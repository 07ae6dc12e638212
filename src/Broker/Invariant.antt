-- ===== src/Broker/Invariant.antt =====
-- Every method of the broker keeps its heap well formed.
use go_tunnel.Base.{ℕ, ◌+◌, ◌^◌, ◌<◌, Bytes, nat_eq, bytes_eq}
use go_tunnel.GoMap
use go_tunnel.GoMap.{GoMap}
use go_tunnel.Broker.{
  Stream, ClientConn, Broker, new_broker, add_connection, remove_connection, map_subdomain,
  unmap_subdomain, open_stream, close_stream,
}
use go_tunnel.Broker.Streams.{Inv}
use go_tunnel.Broker.Closing.{close_stream-Inv, remove_connection-Inv, rerouted-Inv}
use go_tunnel.Broker.Opening.{add_connection-Inv, open_stream-Inv}

-- A call of a method that changes the broker.
pub data BrokerCall : Type 0 where
  adds : Bytes → Bytes → ℕ → BrokerCall
  removes : Bytes → BrokerCall
  maps : Bytes → Bytes → BrokerCall
  unmaps : Bytes → BrokerCall
  opens : ℕ → Bytes → BrokerCall
  closes : ℕ → ℕ → BrokerCall

unfoldable pub step : Broker → BrokerCall → Broker
step b (adds conn_id user_id ws) = (add_connection b conn_id user_id ws).0
step b (removes conn_id) = remove_connection b conn_id
step b (maps subdomain conn_id) = map_subdomain b subdomain conn_id
step b (unmaps subdomain) = unmap_subdomain b subdomain
step b (opens a tunnel_id) = (open_stream b a tunnel_id).0
step b (closes a stream_id) = close_stream b a stream_id

-- The counter of stream ids does not wrap in the call.
abbrev pub HasRoom : Broker → BrokerCall → Type 0
HasRoom b (opens a tunnel_id) = b.next_stream_id + 1 < 2 ^ 32
HasRoom b _ = Unit {0}

-- Every call of a method keeps the broker well formed, an OpenStream as long as the counter of
-- stream ids does not wrap.
pub step-Inv : (b : Broker) (call : BrokerCall) → HasRoom b call → Inv b → Inv (step b call)
unfolding step map_subdomain unmap_subdomain
step-Inv b (adds cid user ws) r v = add_connection-Inv b cid user ws v
step-Inv b (removes cid) r v = remove_connection-Inv b cid v
step-Inv b (maps subdomain cid) r v = rerouted-Inv b (GoMap.put b.subdomain_to_conn subdomain cid) v
step-Inv b (unmaps subdomain) r v = rerouted-Inv b (GoMap.delete b.subdomain_to_conn subdomain) v
step-Inv b (opens a tunnel_id) r v = open_stream-Inv b a tunnel_id r v
step-Inv b (closes a id) r v = close_stream-Inv b a id v

pub new_broker-Inv : Inv new_broker
unfolding new_broker
new_broker-Inv = record {
  registered = λ cid a h. cc (h, GoMap.get-empty {V = ℕ} cid);
  conn_used = λ a c h. cc (h, GoMap.get-empty {V = ClientConn} a);
  stream_used = λ x s h. cc (h, GoMap.get-empty {V = Stream} x);
  opened = λ a id x c h k. cc (h, GoMap.get-empty {V = ClientConn} a);
}
