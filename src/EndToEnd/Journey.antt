-- ===== src/EndToEnd/Journey.antt =====
-- A request's way to the local service behind a client, and the response's way back.
use go_tunnel.Base.{
  ℕ, ◌+◌, ◌^◌, ◌<◌, Bytes, Bool, false, Option, none, some, List, [], ◌∷◌, ◌≡◌, refl, ap, ◌∙◌,
  nat_eq, bytes_eq,
}
use go_tunnel.Base.Int.{ℤ, int_eq}
use go_tunnel.Base.Decimal.{format_uint}
use go_tunnel.Base.Result.{ok}
use go_tunnel.GoMap
use go_tunnel.GoMap.{GoMap}
use go_tunnel.Protocol.{
  OpenStream, StreamData, frame_open_stream, frame_stream_data, frame_close_stream,
}
use go_tunnel.Protocol.Frame.{Json, encode_control_message, encode_frame, decode_frame}
use go_tunnel.Broker
use go_tunnel.Registry
use go_tunnel.Proxy.Outcome.{named}
use go_tunnel.Server.{Server}
use go_tunnel.Server.Messages.{dispatch, handle_message, handle_stream_data}
use go_tunnel.Proxy
use go_tunnel.Proxy.{
  Request, Writes, Setup, waiting, serve_http, open_message, envelope, writable, response,
}
use go_tunnel.Proxy.Opened.{IsOpened, serve_http-waiting}
use go_tunnel.Proxy.Delivered.{IsWaiting, deliver-resume}
use go_tunnel.Proxy.Seen.{status_seen, header_seen, body_seen}
use go_tunnel.Client.{resolve_port}
use go_tunnel.EndToEnd.Headers.{joined, local_call-Asks, response_headers-joined}
use go_tunnel.Client.Session
use go_tunnel.Client.Session.{Client, send_stream_data, send_close_stream}
use go_tunnel.Client.Handler
use go_tunnel.Client.Handler.{
  LocalCall, LocalAnswer, answered, local_call, response_headers, begin, forward, answer, received,
  leave, resume, send_response,
}
use go_tunnel.Client.Ordering.{Opens, Carries, order_decides}
use go_tunnel.EndToEnd.{
  Survives-frame, Survives-decoded, Survives-encoded, mirrored, forward-answered,
}
use go_tunnel.EndToEnd.Understood.{passed_on, Understood}

module _ (gw : Setup) where
  handle_message-data :
      (chosen : Bool) (clock : ℕ → ℤ) (a : ℕ) (ids : List Bytes) (raw payload : Bytes) (s : Server)
      → (decode_frame raw).0 ≡ ok (frame_stream_data, payload)
      → handle_message gw.codecs chosen clock a ids raw s
        ≡ handle_stream_data gw.codecs chosen a payload s
  unfolding handle_message dispatch
  handle_message-data chosen clock a ids raw payload s framed = rw (framed, dispatch) refl

  opened-IsWaiting :
      (s s' : Server) (r : Request) (a x id : ℕ)
      → s.broker.next_stream_id + 1 < 2 ^ 32
      → IsOpened gw s s' r a x id
      → IsWaiting s' a x id
  opened-IsWaiting s s' r a x id room v = record {
    at = record { id = id; tunnel_id = v.tunnel.id; response = []; done = false };
    entered = v.entered;
    there = v.empty;
    nothing_yet = refl;
    still_open = refl;
    fits = rw v.numbered room;
  }

  module _ (request : Json Handler.HttpRequest) (reply : Json Handler.HttpResponse) where
    abbrev pub client_setup : Handler.Setup
    client_setup = record { codecs = gw.codecs; request = request; response = reply }

    -- What comes of a request, when the client has read both frames in time.
    pub record Completed (local : LocalCall → LocalAnswer) (s' : Server) (r : Request) (a x id : ℕ)
        (c : Client) (chosen : Bool) (clock : ℕ → ℤ) (ids : List Bytes) (os : OpenStream)
        (open_frame data_frame : Bytes) (status : ℤ) (header : GoMap Bytes (List Bytes))
        (page : Bytes) : Type 0 where
      pub calls : List Proxy.WriterCall
      pub ended : Client
      pub reply_frame : Bytes
      pub close_frame : Bytes
      pub delivered : Server
      pub finished : Server
      pub resumed :
          let (b, y) = begin (Session.read_message gw.codecs c open_frame).0 os.stream_id in
          Handler.resume client_setup local
            (Session.read_message gw.codecs b data_frame).0
            os
            y
            received
          ≡ some ended
      pub sent : ended.sent ≡ close_frame ∷ reply_frame ∷ c.sent
      pub handled : handle_message gw.codecs chosen clock a ids reply_frame s' ≡ some delivered
      pub answer : Proxy.resume gw delivered r response a x id ≡ some (finished, calls)
      pub status_shown : status_seen calls ≡ some status
      pub header_shown : (k : Bytes) → header_seen k none calls ≡ joined (GoMap.get header k)
      pub body_shown : body_seen calls ≡ page

    opened_answered :
        (local : LocalCall → LocalAnswer) (s' : Server) (r : Request) (a x id : ℕ) (c : Client)
        (chosen : Bool) (clock : ℕ → ℤ) (ids : List Bytes)
        (target data_bytes body open_frame data_frame : Bytes)
        → GoMap.get c.pending (format_uint id) ≡ none
        → IsWaiting s' a x id
        → encode_control_message gw.codecs.open_stream frame_open_stream (open_message r id target)
          ≡ some open_frame
        → encode_control_message gw.codecs.stream_data frame_stream_data
            (record { stream_id = format_uint id; content = data_bytes })
          ≡ some data_frame
        → (u : Understood gw request reply local c r id target data_bytes body)
        → Completed local s' r a x id c chosen clock ids
            (open_message r id target)
            open_frame
            data_frame
            u.status
            u.header
            u.page
    unfolding open_message begin leave
    opened_answered local s' r a x id c chosen clock ids target data_bytes body open_frame
          data_frame fresh waits opened_as sent_as u =
        let os = open_message r id target in
        let sd : StreamData = record { stream_id = format_uint id; content = data_bytes } in
        let opens : Opens gw.codecs open_frame os = (
          u.opening.payload,
          Survives-frame gw.codecs.open_stream os frame_open_stream open_frame u.opening opened_as,
          Survives-decoded gw.codecs.open_stream os frame_open_stream u.opening,
        ) in
        let carries : Carries gw.codecs data_frame (format_uint id) data_bytes = (
          u.carrying.payload,
          Survives-frame gw.codecs.stream_data sd frame_stream_data data_frame u.carrying sent_as,
          Survives-decoded gw.codecs.stream_data sd frame_stream_data u.carrying,
        ) in
        let (read, (l, resumed), _) =
          order_decides client_setup local c open_frame data_frame data_bytes os opens carries
            fresh in
        let b : Client = record (begin c (format_uint id)).0 { channels = l } in
        let forwarded =
          forward-answered client_setup local b os data_bytes u.content (mirrored (envelope r body))
            u.status u.header u.page u.parsed u.there
            (u.called
              (local_call c.settings (resolve_port c.settings.tunnels target)
                (mirrored (envelope r body)))
              (local_call-Asks c.settings (resolve_port c.settings.tunnels target) r body
                u.canonical))
            u.made u.back u.closing in
        let reply_frame = encode_frame frame_stream_data u.back.payload in
        let framed =
          Survives-frame gw.codecs.stream_data
            (record { stream_id = format_uint id; content = u.content }) frame_stream_data
            reply_frame u.back
            (Survives-encoded gw.codecs.stream_data
              (record { stream_id = format_uint id; content = u.content }) frame_stream_data
              u.back) in
        let (t, s'', calls, given, woken, shown, _, _) =
          deliver-resume gw s' r chosen a x id u.back.payload u.content
            (passed_on u.status u.header u.page) waits
            (Survives-decoded gw.codecs.stream_data
              (record { stream_id = format_uint id; content = u.content }) frame_stream_data u.back)
            u.accepted u.above u.below in
        let opening_read = ap (λ (p : Client × Option OpenStream). p.0) read in
        record {
          ended = leave (forward client_setup local b os data_bytes) os.stream_id;
          reply_frame = reply_frame;
          close_frame = encode_frame frame_close_stream u.closing.payload;
          delivered = t;
          finished = s'';
          resumed = rw opening_read resumed;
          sent = ap (λ (d : Client). d.sent) forwarded;
          handled =
              handle_message-data chosen clock a ids reply_frame u.back.payload s' framed ∙ given;
          calls = calls;
          answer = woken;
          status_shown = shown.status;
          header_shown = λ k. shown.header k ∙ response_headers-joined u.header k;
          body_shown = shown.body;
        }

    -- A request that waits at the gateway is answered by its client's local service, if the two sides
    -- understand each other and the client's handler begins between the two frames that the gateway
    -- has sent: the client calls the local service with the user's method, URI and body and with each
    -- of the user's headers, its values joined by commas, and sends two frames. When the gateway has
    -- read the first one, the user sees the status and the body that came back and, of each header
    -- that came back, the values joined by commas, and no other header.
    pub request_answered :
        (local : LocalCall → LocalAnswer) (s s' : Server) (r : Request) (w : Writes) (a x id : ℕ)
        (c : Client) (chosen : Bool) (clock : ℕ → ℤ) (ids : List Bytes) (tunnel : Registry.Tunnel)
        (body data_bytes : Bytes)
        → Broker.Streams.Inv s.broker
        → s.broker.next_stream_id + 1 < 2 ^ 32
        → serve_http gw s r w ≡ (s', waiting a x id)
        → Registry.get_by_subdomain s.registry (named gw r) ≡ ok (some tunnel)
        → r.body ≡ some body
        → gw.request.marshal (envelope r body) ≡ some data_bytes
        → GoMap.get c.pending (format_uint id) ≡ none
        → (u : Understood gw request reply local c r id tunnel.id data_bytes body)
        → (ws : ℕ) × (open_frame : Bytes) × (data_frame : Bytes) × (s'.sent
            ≡ (ws, data_frame) ∷ (ws, open_frame) ∷ s.sent)
          × Completed local s' r a x id c chosen clock ids
              (open_message r id tunnel.id)
              open_frame
              data_frame
              u.status
              u.header
              u.page
    request_answered local s s' r w a x id c chosen clock ids tunnel body data_bytes v room h found
          read made fresh u =
        let o = serve_http-waiting gw s s' r w a x id v room h in
        let (b, read', made') = o.enveloped in
        let found' = o.registered in
        let same_tunnel : o.tunnel ≡ tunnel = cc in
        let same_body : b ≡ body = cc in
        let again = rw same_body at made' in
        let same_data : o.data_bytes ≡ data_bytes = cc in
        let opened_as = o.open_encoded in
        let sent_as = o.data_encoded in
        (
          o.client.ws,
          o.open_frame,
          o.data_frame,
          o.sent,
          opened_answered local s' r a x id c chosen clock ids tunnel.id data_bytes body
              o.open_frame o.data_frame fresh (opened-IsWaiting s s' r a x id room o)
              (rw same_tunnel at opened_as) (rw same_data at sent_as) u,
        )
