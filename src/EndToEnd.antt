-- ===== src/EndToEnd.antt =====
-- internal/proxy/proxy.go, internal/server/server.go and internal/client/client.go together: a user's
-- request from the gateway to the local service behind a client, and the response's way back.
pub mod Headers
pub mod Understood
pub mod Journey
pub mod Handshake
pub mod Alive
pub mod Overtaken
use go_tunnel.Base.{
  ℕ, ◌+◌, ◌^◌, ◌<◌, Bytes, Bool, true, false, Option, none, some, List, [], ◌∷◌, ◌≡◌, refl, sym, ap,
  ◌∙◌, arith, length, nat_eq, bytes_eq, ◌==◌,
}
use mathlib.Core.List.{append-nil}
use go_tunnel.Base.Int.{ℤ, pos, int_eq}
use go_tunnel.Base.Decimal.{format_uint}
use go_tunnel.Base.Result.{Result, ok}
use go_tunnel.GoMap
use go_tunnel.GoMap.{GoMap}
use go_tunnel.Protocol.{
  OpenStream, StreamData, CloseStream, frame_open_stream, frame_stream_data, frame_close_stream,
}
use go_tunnel.Protocol.Frame.{
  Json, FrameError, encode_frame, decode_frame, encode_control_message, decode_control_message,
}
use go_tunnel.Protocol.Frame.RoundTrip.{decode-encode}
use go_tunnel.Broker
use go_tunnel.Server.{Server}
use go_tunnel.Server.Messages.{dispatch, handle_message, handle_stream_data, handle_heartbeat}
use go_tunnel.Proxy
use go_tunnel.Proxy.{
  Request, Writes, Setup, waiting, serve_http, open_message, envelope, writable, response,
}
use go_tunnel.Proxy.Opened.{IsOpened, serve_http-waiting}
use go_tunnel.Client.{resolve_port}
use go_tunnel.Client.Session
use go_tunnel.Client.Session.{Client, send_stream_data, send_close_stream}
use go_tunnel.Client.Handler
use go_tunnel.Client.Handler.{
  LocalCall, LocalAnswer, answered, local_call, response_headers, begin, forward, answer, received,
  leave, resume, send_response,
}
use go_tunnel.Client.Ordering.{Opens, Carries, order_decides}

-- A message is marshalled, to less than 4 GiB, and unmarshalled to itself.
pub record Survives {A : Type 0} (json : Json A) (m : A) : Type 0 where
  pub payload : Bytes
  pub marshalled : json.marshal m ≡ some payload
  pub unmarshalled : json.unmarshal payload ≡ some m
  pub fits : length payload < 2 ^ 32

module _ {A : Type 0} (json : Json A) (m : A) (frame_type : ℕ) where
  pub Survives-frame :
      (frame : Bytes) (v : Survives json m)
      → encode_control_message json frame_type m ≡ some frame
      → ((decode_frame frame).0 ≡ ok (frame_type, v.payload))
  unfolding encode_control_message
  Survives-frame frame v e =
      let made : frame ≡ encode_frame frame_type v.payload = ground (arith, v.marshalled) in
      let decoded = decode-encode frame_type v.payload [] v.fits in
      rw made (
        ap (λ (o : Result FrameError (ℕ × Bytes) × Bytes). o.0)
          (ap decode_frame (sym (append-nil (encode_frame frame_type v.payload))) ∙ decoded))

  pub Survives-decoded : (v : Survives json m) → decode_control_message json v.payload ≡ some m
  unfolding decode_control_message
  Survives-decoded v = v.unmarshalled

  pub Survives-encoded :
      (v : Survives json m)
      → encode_control_message json frame_type m ≡ some (encode_frame frame_type v.payload)
  unfolding encode_control_message
  Survives-encoded v = ground (arith, v.marshalled)

-- The envelope as the client's own type has it.
abbrev pub mirrored : Proxy.HttpRequest → Handler.HttpRequest
mirrored q = record { method = q.method; path = q.path; headers = q.headers; body = q.body }

abbrev pub returned : ℤ → GoMap Bytes (List Bytes) → Bytes → Handler.HttpResponse
returned status header body = record {
  status_code = status;
  headers = response_headers (GoMap.range header) GoMap.empty;
  body = body;
}

module _ (setup : Handler.Setup) where
  pub forward-answered :
      (local : LocalCall → LocalAnswer) (c : Client) (os : OpenStream) (req_data content : Bytes)
      (req : Handler.HttpRequest) (status : ℤ) (header : GoMap Bytes (List Bytes)) (body : Bytes)
      → let port = resolve_port c.settings.tunnels os.target_tunnel in
        setup.request.unmarshal req_data ≡ some req
        → (port == pos 0) ≡ false
        → local (local_call c.settings port req) ≡ answered status header body
        → setup.response.marshal (returned status header body) ≡ some content
        → (d : Survives setup.codecs.stream_data
            (record { stream_id = os.stream_id; content = content }))
        → (e : Survives setup.codecs.close_stream (record { stream_id = os.stream_id }))
        → forward setup local c os req_data ≡ record c {
          sent =
              encode_frame frame_close_stream e.payload
              ∷ encode_frame frame_stream_data d.payload
              ∷ c.sent;
        }
  unfolding forward answer send_response send_stream_data send_close_stream
  forward-answered local c os req_data content req status header body parsed there called made d e =
      ground (
        arith,
        Survives-encoded setup.codecs.stream_data
            (record { stream_id = os.stream_id; content = content }) frame_stream_data d,
        Survives-encoded setup.codecs.close_stream (record { stream_id = os.stream_id })
            frame_close_stream e,
      )
