-- ===== src/Gateway.antt =====
-- internal/server/server.go, internal/proxy/proxy.go and internal/admin/admin.go as one system: the
-- steps that the handlers of the gateway take on its shared state, in any order.
pub mod Sound
pub mod Registers
pub mod Serves
pub mod Proxies
pub mod Administers
pub mod Reachable
use go_tunnel.Base.{ℕ, ◌+◌, ◌^◌, ◌<◌, Bytes, Bool, none, some, List, ◌≡◌, Option, bytes_eq}
use go_tunnel.Base.Int.{ℤ}
use go_tunnel.GoMap
use go_tunnel.Protocol.{Register}
use go_tunnel.Registry.{MemoryRegistry}
use go_tunnel.Auth.{Mac, Token}
use go_tunnel.Metrics.{MetricCall}
use go_tunnel.Server.{Server, new_server, cleanup_connection}
use go_tunnel.Server.Connect.{accept, choose_conn_id, tunnel_id}
use go_tunnel.Server.Messages.{handle_message}
use go_tunnel.Admin.{AdminRequest, Route, serve_admin}
use go_tunnel.Proxy.{Request, Writes, Woken, Setup, WriterCall, serve_http, resume}

-- No tunnel stands under an id that the connection's id and a free subdomain make. (Two connections
-- may make the same id: "a" with "b-c", and "a-b" with "c".)
abbrev pub Unclaimed : MemoryRegistry → Bytes → Type 0
Unclaimed r conn_id =
    (sub : Bytes)
    → GoMap.get r.subdomain_index sub ≡ none
    → GoMap.get r.tunnels (tunnel_id conn_id sub) ≡ none

module _ (setup : Setup) (mac : Mac) where
  -- A client is accepted, or refused; the gateway reads a message of a client; a connection ends; a
  -- request comes in, while the counter of stream ids has not wrapped; one is woken; the admin API is
  -- called.
  pub data Step (s : Server) (t : Server) : Type 0 where
    accepts :
        (clock : ℕ → ℤ) (ws : ℕ) (reg : Register) (token : Token)
        → Unclaimed s.registry (choose_conn_id reg.client_id (clock 1))
        → t ≡ (accept setup.codecs clock s ws reg token).0
        → Step s t
    refuses :
        (sent : List (ℕ × Bytes)) (metrics : List MetricCall)
        → t ≡ record s { sent = sent; metrics = metrics }
        → Step s t
    reads :
        (chosen : Bool) (clock : ℕ → ℤ) (a : ℕ) (ids : List Bytes) (raw : Bytes)
        → handle_message setup.codecs chosen clock a ids raw s ≡ some t
        → Step s t
    ends : (conn_id : Bytes) (ids : List Bytes) → t ≡ cleanup_connection s conn_id ids → Step s t
    asks :
        (r : Request) (w : Writes)
        → s.broker.next_stream_id + 1 < 2 ^ 32
        → t ≡ (serve_http setup s r w).0
        → Step s t
    wakes :
        (r : Request) (woken : Woken) (a x id : ℕ) (calls : List WriterCall)
        → resume setup s r woken a x id ≡ some (t, calls)
        → Step s t
    administers :
        (route : Route) (r : AdminRequest) (random : Option Bytes) (now later : ℤ)
        → t ≡ (serve_admin mac s route r random now later).0
        → Step s t

  pub data Reach (s : Server) : Server → Type 0 where
    here : Reach s s
    next : {t u : Server} → Reach s t → Step t u → Reach s u
