-- ===== src/Gateway/Reachable.antt =====
-- Every state that the gateway comes to is sound.
use go_tunnel.Base.{Bytes, List, ◌≢◌}
use go_tunnel.Base.Int.{ℤ}
use go_tunnel.Registry.Invariant.{new_memory_registry-Inv}
use go_tunnel.Broker.Invariant.{new_broker-Inv}
use go_tunnel.Auth.{Mac}
use go_tunnel.Server.{Server, new_server}
use go_tunnel.Proxy.{Setup, Request, Writes, serve_http, panicked}
use go_tunnel.Proxy.Refused.{serve_http-ne-panicked}
use go_tunnel.Gateway.{
  Step, Reach, accepts, refuses, reads, ends, asks, wakes, administers, here, next,
}
use go_tunnel.Gateway.Sound.{IsSound, cleanup_connection-IsSound}
use go_tunnel.Gateway.Registers.{accept-IsSound}
use go_tunnel.Gateway.Serves.{handle_message-IsSound}
use go_tunnel.Gateway.Proxies.{serve_http-IsSound, resume-IsSound}
use go_tunnel.Gateway.Administers.{serve_admin-IsSound}

new_server-IsSound :
    (key : Bytes) (reserved : List Bytes) (longest ttl : ℤ)
    → IsSound (new_server key reserved longest ttl)
unfolding new_server
new_server-IsSound key reserved longest ttl = record {
  registry = new_memory_registry-Inv reserved longest ttl;
  broker = new_broker-Inv;
}

module _ (setup : Setup) (mac : Mac) where
  Step-IsSound : (s t : Server) → Step setup mac s t → IsSound s → IsSound t
  Step-IsSound s t (accepts clock ws reg token free e) v =
      rw e (accept-IsSound setup.codecs clock s ws reg token free v)
  Step-IsSound s t (refuses sent metrics e) v =
      rw e (record { registry = v.registry; broker = v.broker })
  Step-IsSound s t (reads chosen clock a ids raw h) v =
      handle_message-IsSound setup.codecs chosen clock a ids raw s t v h
  Step-IsSound s t (ends cid ids e) v = rw e (cleanup_connection-IsSound s cid ids v)
  Step-IsSound s t (asks r w room e) v = rw e (serve_http-IsSound setup s r w room v)
  Step-IsSound s t (wakes r woken a x id calls h) v =
      resume-IsSound setup s t r woken a x id calls v h
  Step-IsSound s t (administers route r random now later e) v =
      rw e (serve_admin-IsSound mac s route r random now later v)

  -- In every state that a new gateway comes to, by any sequence of its handlers' steps: the two maps
  -- of the registry agree, the broker's heap is well formed, and so the proxy never meets a nil
  -- tunnel. A client is only accepted where no tunnel stands under an id that its own id and a free
  -- subdomain make, and requests come in while the counter of stream ids has not wrapped.
  pub reachable-IsSound :
      (key : Bytes) (reserved : List Bytes) (longest ttl : ℤ) (s : Server) (r : Request)
      (w : Writes)
      → Reach setup mac (new_server key reserved longest ttl) s
      → IsSound s × ((serve_http setup s r w).1 ≢ panicked)
  reachable-IsSound key reserved longest ttl s r w reached =
      let v = sound s reached in (v, serve_http-ne-panicked setup s r w v.registry)
    where
      sound : (t : Server) → Reach setup mac (new_server key reserved longest ttl) t → IsSound t
      sound t here = new_server-IsSound key reserved longest ttl
      sound t (next {t = before} q st) = Step-IsSound before t st (sound before q)
