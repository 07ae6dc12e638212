-- ===== src/Proxy.antt =====
-- internal/proxy/proxy.go: ServeHTTP. The proxy has the registry, the broker and the metrics of the
-- gateway, so it works on the server's state. A request has two stages around the wait for the
-- client: `serve_http` up to the select, and `resume` from the case that the select took. What a
-- handler does to its ResponseWriter is the list of its calls. JSON is a parameter; whether a write
-- to the client's WebSocket or the reading of the body succeeds is part of the input.
pub mod Message
pub mod Stages
pub mod Outcome
pub mod Refused
pub mod Opened
pub mod Answered
pub mod Seen
pub mod Delivered
use go_tunnel.Base.{
  ℕ, Bytes, bytes, Bool, true, false, ◌&&◌, ◌||◌, not, Option, none, some, List, [], ◌∷◌, ◌++◌, map,
  length, nat_eq, bytes_eq, ◌==◌, if◌then◌else◌,
}
use go_tunnel.Base.Int.{ℤ, pos, ltb_ℤ, int_eq}
use go_tunnel.Base.Decimal.{format_uint}
use go_tunnel.Base.Result.{Result, ok, err}
use go_tunnel.GoMap
use go_tunnel.GoMap.{GoMap}
use go_tunnel.Protocol.{OpenStream, StreamData, frame_open_stream, frame_stream_data}
use go_tunnel.Protocol.Frame.{Json, encode_control_message}
use go_tunnel.Registry
use go_tunnel.Registry.{Tunnel, RegistryError}
use go_tunnel.Broker
use go_tunnel.Broker.{Broker, Stream, ClientConn, conn, stream, set_stream}
use go_tunnel.Metrics.{inc_requests, add_bytes_sent, add_bytes_recv}
use go_tunnel.Server.{Codecs, Server, count, write_message}
use go_tunnel.Server.Connect.{format_int}
use go_tunnel.Host.{Unicode, extract_subdomain}
pub use go_tunnel.Proxy.Message.{Request, HttpRequest, HttpResponse}
unfoldable pub use go_tunnel.Proxy.Message.{join_values, join_headers, envelope, open_message}

-- Calls on the ResponseWriter; `error` is http.Error with its message and status.
pub data WriterCall : Type 0 where
  error : Bytes → ℕ → WriterCall
  set_header : Bytes → Bytes → WriterCall
  write_header : ℤ → WriterCall
  write : Bytes → WriterCall

-- What the handler is made of: its JSON, the Unicode tables and the public host name.
pub record Setup : Type 0 where
  pub codecs : Codecs
  pub request : Json HttpRequest
  pub response : Json HttpResponse
  pub unicode : Unicode
  pub public_hostname : Bytes

-- Whether the two frames could be sent.
pub record Writes : Type 0 where
  pub opening : Bool
  pub content : Bool

-- The request is answered; or the handler panics on a nil tunnel; or it waits, on the connection and
-- the stream at the addresses, the stream having the id.
pub data Stage : Type 0 where
  answered : List WriterCall → Stage
  panicked : Stage
  waiting : ℕ → ℕ → ℕ → Stage

-- The case that the select took.
pub data Woken : Type 0 where
  response done timeout : Woken

-- http.Error and IncRequests with one status.
unfoldable pub refuse : Server → Request → ℕ → Bytes → Server × List WriterCall
refuse s r status message =
    (count s (inc_requests (format_uint status) r.method), error message status ∷ [])

-- A refusal after the stream was opened, with the deferred CloseStream.
unfoldable pub give_up : Server → Request → ℕ → ℕ → Bytes → Server × Stage
unfolding refuse
give_up s r a id message =
    let (s', calls) = refuse s r 502 message in
    (record s' { broker = Broker.close_stream s'.broker a id }, answered calls)

-- conn.WS; the address is one that the broker gave out, so it is never dangling.
unfoldable pub socket : Broker → ℕ → ℕ
socket b a = elim (conn b a) [ none ↦ 0 | some c ↦ c.ws ]

module _ (setup : Setup) where
  -- The second frame.
  unfoldable pub send_data : Server → Request → Writes → ℕ → ℕ → ℕ → Bytes → Server × Stage
  unfolding give_up socket
  send_data s r w a x id data_bytes =
      elim (encode_control_message setup.codecs.stream_data frame_stream_data
        (record { stream_id = format_uint id; content = data_bytes })) [
          | none ↦ give_up s r a id (bytes "502 Bad Gateway")
          | some frame ↦
              if w.content
              then (
                count (write_message s (socket s.broker a) (some frame))
                    (add_bytes_sent (length data_bytes)),
                waiting a x id,
              )
              else give_up s r a id (bytes "502 Bad Gateway")
        ]

  unfoldable pub send_request : Server → Request → Writes → ℕ → ℕ → ℕ → Server × Stage
  unfolding send_data give_up envelope
  send_request s r w a x id = elim r.body [
    | none ↦ give_up s r a id (bytes "502 Bad Gateway")
    | some body ↦ elim (setup.request.marshal (envelope r body)) [
      | none ↦ give_up s r a id (bytes "502 Bad Gateway")
      | some data_bytes ↦ send_data s r w a x id data_bytes
    ]
  ]

  -- The first frame.
  unfoldable pub send_open : Server → Request → Writes → ℕ → ℕ → ℕ → Bytes → Server × Stage
  unfolding send_request give_up socket open_message
  send_open s r w a x id tunnel_id =
      elim (encode_control_message setup.codecs.open_stream frame_open_stream
        (open_message r id tunnel_id)) [
          | none ↦ give_up s r a id (bytes "502 Bad Gateway")
          | some frame ↦
              let sent = write_message s (socket s.broker a) (some frame) in
              if w.opening
              then send_request sent r w a x id
              else give_up s r a id (bytes "502 Bad Gateway")
        ]

  -- From the tunnel and the connection on. The id is the counter's value when the stream was opened.
  unfoldable pub open_request : Server → Request → Writes → ℕ → Tunnel → Server × Stage
  unfolding send_open
  open_request s r w a tunnel =
      let (broker, x) = Broker.open_stream s.broker a tunnel.id in
      send_open (record s { broker = broker }) r w a x broker.next_stream_id tunnel.id

  abbrev answer : Server × List WriterCall → Server × Stage
  answer (s, calls) = (s, answered calls)

  unfoldable pub route_request :
      Server → Request → Writes → Option Tunnel → Option ℕ → Server × Stage
  unfolding open_request refuse
  route_request s r w tunnel none =
      answer (refuse s r 502 (bytes "502 Bad Gateway: tunnel client not connected"))
  route_request s r w none (some a) = (s, panicked)
  route_request s r w (some tunnel) (some a) = open_request s r w a tunnel

  unfoldable pub serve_http : Server → Request → Writes → Server × Stage
  unfolding route_request refuse
  serve_http s r w =
      let subdomain = extract_subdomain setup.unicode r.host setup.public_hostname in
      if subdomain == []
      then answer (refuse s r 502 (bytes "502 Bad Gateway: unable to determine tunnel"))
      else elim (Registry.get_by_subdomain s.registry subdomain) [
        | err e ↦ answer (refuse s r 502 (bytes "502 Bad Gateway: tunnel not found"))
        | ok tunnel ↦
            route_request s r w tunnel (Broker.get_connection_by_subdomain s.broker subdomain)
      ]

  abbrev pub header_call : Bytes × Bytes → WriterCall
  header_call (k, v) = set_header k v

  abbrev pub body_calls : Bytes → List WriterCall
  body_calls [] = []
  body_calls (b ∷ bs) = write (b ∷ bs) ∷ []

  -- WriteHeader panics outside 100 to 999.
  abbrev pub writable : ℤ → Bool
  writable z = ltb_ℤ (pos 99) z && ltb_ℤ z (pos 1000)

  -- The response envelope written out.
  unfoldable pub write_response : Server → Request → HttpResponse → Server × List WriterCall
  unfolding refuse
  write_response s r resp =
      let headers = map header_call (GoMap.range resp.headers) in
      let (refused, calls) = refuse s r 502 (bytes "502 Bad Gateway: invalid response status") in
      if resp.status_code == pos 0
      then (refused, headers ++ calls)
      else if writable resp.status_code
      then (
        count s (inc_requests (format_int resp.status_code) r.method),
        headers ++ write_header resp.status_code ∷ body_calls resp.body,
      )
      else (s, headers ++ write_header resp.status_code ∷ [])

  unfoldable pub finish_response : Server → Request → Bytes → Server × List WriterCall
  unfolding write_response refuse
  finish_response s r data_bytes =
      let counted = count s (add_bytes_recv (length data_bytes)) in
      elim (setup.response.unmarshal data_bytes) [
        | none ↦ refuse counted r 502 (bytes "502 Bad Gateway: invalid response")
        | some resp ↦ write_response counted r resp
      ]

  -- The case of the select that receives a response: the channel's first message is taken out.
  unfoldable pub take_response : Server → Request → ℕ → Stream → Option (Server × List WriterCall)
  unfolding finish_response
  take_response s r x st = elim st.response [
    | [] ↦ none
    | data_bytes ∷ later ↦
        let taken = set_stream s.broker x (record st { response = later }) in
        some (finish_response (record s { broker = taken }) r data_bytes)
  ]

  unfoldable pub wake : Server → Request → Woken → ℕ → Stream → Option (Server × List WriterCall)
  unfolding take_response refuse
  wake s r response x st = take_response s r x st
  wake s r done x st =
      if st.done then some (refuse s r 502 (bytes "502 Bad Gateway: stream closed")) else none
  wake s r timeout x st = some (refuse s r 504 (bytes "504 Gateway Timeout"))

  abbrev close_after : ℕ → ℕ → Option (Server × List WriterCall) → Option (Server × List WriterCall)
  close_after a id none = none
  close_after a id (some (s, calls)) =
      some (record s { broker = Broker.close_stream s.broker a id }, calls)

  -- The rest of the handler once the select has taken a case, with the deferred CloseStream; `none`
  -- if that case is not ready.
  unfoldable pub resume : Server → Request → Woken → ℕ → ℕ → ℕ → Option (Server × List WriterCall)
  unfolding wake
  resume s r woken a x id = elim (stream s.broker x) [
    | none ↦ none
    | some st ↦ close_after a id (wake s r woken x st)
  ]
