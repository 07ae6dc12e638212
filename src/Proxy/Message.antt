-- ===== src/Proxy/Message.antt =====
-- internal/proxy/proxy.go: the request, and the messages that carry it and its response.
use go_tunnel.Base.{ℕ, Bytes, bytes, Option, List, [], ◌∷◌, ◌++◌, bytes_eq}
use go_tunnel.Base.Int.{ℤ}
use go_tunnel.Base.Decimal.{format_uint}
use go_tunnel.GoMap
use go_tunnel.GoMap.{GoMap}
use go_tunnel.Protocol.{OpenStream}

-- What the handler uses of an *http.Request; a body that cannot be read is `none`.
pub record Request : Type 0 where
  pub method : Bytes
  pub host : Bytes
  pub request_uri : Bytes
  pub header : GoMap Bytes (List Bytes)
  pub body : Option Bytes

pub record HttpRequest : Type 0 where
  pub method : Bytes
  pub path : Bytes
  pub headers : GoMap Bytes Bytes
  pub body : Bytes

pub record HttpResponse : Type 0 where
  pub status_code : ℤ
  pub headers : GoMap Bytes Bytes
  pub body : Bytes

-- strings.Join(v, ", ")
unfoldable pub join_values : List Bytes → Bytes
join_values [] = []
join_values (v ∷ []) = v
join_values (v ∷ w ∷ rest) = v ++ bytes ", " ++ join_values (w ∷ rest)

-- The loop over r.Header.
unfoldable pub join_headers : List (Bytes × List Bytes) → GoMap Bytes Bytes → GoMap Bytes Bytes
unfolding join_values
join_headers [] headers = headers
join_headers ((k, v) ∷ rest) headers = join_headers rest (GoMap.put headers k (join_values v))

unfoldable pub envelope : Request → Bytes → HttpRequest
unfolding join_headers
envelope r body = record {
  method = r.method;
  path = r.request_uri;
  headers = join_headers (GoMap.range r.header) GoMap.empty;
  body = body;
}

unfoldable pub open_message : Request → ℕ → Bytes → OpenStream
open_message r id tunnel_id = record {
  kind = bytes "open_stream";
  stream_id = format_uint id;
  target_tunnel = tunnel_id;
  metadata = record { method = r.method; path = r.request_uri };
}
