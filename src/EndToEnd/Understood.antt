-- ===== src/EndToEnd/Understood.antt =====
-- When the gateway and a client understand each other on one request.
use go_tunnel.Base.{ℕ, Bytes, false, some, List, ◌≡◌, nat_eq, bytes_eq, ◌==◌}
use go_tunnel.Base.Int.{ℤ, pos, int_eq, ◌≤ℤ◌}
use go_tunnel.Base.Decimal.{format_uint}
use go_tunnel.GoMap
use go_tunnel.GoMap.{GoMap}
use go_tunnel.Protocol.Frame.{Json}
use go_tunnel.Proxy
use go_tunnel.Proxy.{
  Request, Writes, Setup, waiting, serve_http, open_message, envelope, writable, response,
}
use go_tunnel.Client.{resolve_port}
use go_tunnel.Client.Session.{Client}
use go_tunnel.Client.Handler
use go_tunnel.Client.Handler.{
  LocalCall, LocalAnswer, answered, local_call, response_headers, begin, forward, answer, received,
  leave, resume, send_response,
}
use go_tunnel.EndToEnd.Headers.{IsCanonical, Asks}
use go_tunnel.EndToEnd.{Survives, mirrored, returned}

-- The local service's response as the gateway's own type has it.
abbrev pub passed_on : ℤ → GoMap Bytes (List Bytes) → Bytes → Proxy.HttpResponse
passed_on status header page = record {
  status_code = status;
  headers = response_headers (GoMap.range header) GoMap.empty;
  body = page;
}

-- The two sides of one request understand each other: what the gateway sends is what the client
-- reads and the other way round, the client has a port for the tunnel, and its local service answers
-- a call that asks for what the user has asked, with a response that the client can marshal and a
-- status from 100 to 999.
pub record Understood (gw : Setup) (request : Json Handler.HttpRequest)
    (reply : Json Handler.HttpResponse) (local : LocalCall → LocalAnswer) (c : Client) (r : Request)
    (id : ℕ) (target data_bytes body : Bytes) : Type 0 where
  pub opening : Survives gw.codecs.open_stream (open_message r id target)
  pub carrying :
      Survives gw.codecs.stream_data (record { stream_id = format_uint id; content = data_bytes })
  pub parsed : request.unmarshal data_bytes ≡ some (mirrored (envelope r body))
  pub there : (resolve_port c.settings.tunnels target == pos 0) ≡ false
  pub status : ℤ
  pub header : GoMap Bytes (List Bytes)
  pub page : Bytes
  pub canonical : IsCanonical r.header
  pub called :
      (call : LocalCall)
      → Asks c.settings (resolve_port c.settings.tunnels target) r body call
      → local call ≡ answered status header page
  pub content : Bytes
  pub made : reply.marshal (returned status header page) ≡ some content
  pub back :
      Survives gw.codecs.stream_data (record { stream_id = format_uint id; content = content })
  pub closing : Survives gw.codecs.close_stream (record { stream_id = format_uint id })
  pub accepted : gw.response.unmarshal content ≡ some (passed_on status header page)
  pub above : pos 100 ≤ℤ status
  pub below : status ≤ℤ pos 999
