-- ===== src/Tests/Session.antt =====
-- internal/client/client.go, a client that reads the two frames of a stream. A message is its stream
-- id, or that, a blank and the content.
use go_tunnel.Base.{
  false, ◌++◌, ℕ, Bytes, bytes, bytes_beq, Option, none, some, List, [], ◌∷◌, ◌≡◌, refl, bytes_eq,
  nat_eq,
}
use go_tunnel.Base.Int.{pos}
use go_tunnel.Base.Hex.{cut}
use go_tunnel.GoMap
use go_tunnel.GoMap.{GoMap}
use go_tunnel.GoMap.Assoc.{find, without}
use go_tunnel.Config.{client_defaults}
use go_tunnel.Config.Types.{ClientSettings, ClientTunnel}
use go_tunnel.Protocol.{OpenStream, StreamData, frame_open_stream, frame_stream_data}
use go_tunnel.Protocol.Frame.{
  Json, encode_frame, put_uint32, get_uint32, read_full, decode_payload, decode_header,
  decode_frame, decode_control_message, encode_control_message,
}
use go_tunnel.Server.{Codecs}
use go_tunnel.Tests.Server.{toy_codecs}
use go_tunnel.Client.Session.{
  Client, new_client, read_message, dispatch, handle_data, deliver_stream_data, deliver_at,
}
use go_tunnel.Client.Handler.{
  Setup, HttpRequest, HttpResponse, LocalCall, LocalAnswer, answered, begin, forward, leave,
  received, resume,
}
use go_tunnel.Client.Steps.{System, waiting, Reach, reads, begins, here, next, after_read, initial}
use go_tunnel.Client.Quiet.{pending-running}
use go_tunnel.Client.Ordering.{order_decides}

pub program : Unit {0}
unfolding bytes_beq cut GoMap.empty GoMap.get GoMap.put GoMap.delete GoMap.range find without
    encode_frame put_uint32 get_uint32 read_full decode_payload decode_header decode_frame
    decode_control_message encode_control_message new_client read_message dispatch handle_data
    deliver_stream_data deliver_at begin leave after_read client_defaults
program = tt

abbrev pub opening : OpenStream
opening = record {
  kind = bytes "open_stream";
  stream_id = bytes "1";
  target_tunnel = bytes "c1-app";
  metadata = record { method = bytes "GET"; path = bytes "/" };
}

abbrev pub spaced : Option (Bytes × Bytes) → Option StreamData
spaced none = none
spaced (some (id, content)) = some (record { stream_id = id; content = content })

abbrev pub talking : Codecs
talking = record toy_codecs {
  open_stream = record { marshal = λ m. some m.stream_id; unmarshal = λ b. some opening };
  stream_data = record {
    marshal = λ sd. some (sd.stream_id ++ b' ' ∷ sd.content);
    unmarshal = λ b. spaced (cut b' ' b);
  };
  close_stream = record {
    marshal = λ cs. some cs.stream_id;
    unmarshal = λ b. some (record { stream_id = b });
  };
}

-- Every request is a GET of the root, and a response is its body.
abbrev pub root_request : HttpRequest
root_request = record {
  method = bytes "GET";
  path = bytes "/";
  headers = GoMap.empty;
  body = bytes "hello";
}

abbrev pub request_json : Json HttpRequest
request_json = record { marshal = λ r. some r.body; unmarshal = λ b. some root_request }

abbrev pub response_json : Json HttpResponse
response_json = record { marshal = λ r. some r.body; unmarshal = λ b. none }

abbrev pub setup : Setup
setup = record { codecs = talking; request = request_json; response = response_json }

abbrev pub local : LocalCall → LocalAnswer
local call = answered (pos 200) GoMap.empty (bytes "hi")

abbrev app : ClientTunnel
app = record {
  name = bytes "app";
  port = pos 3000;
  protocol = bytes "http";
  subdomain = bytes "app";
}

abbrev pub settings : ClientSettings
settings = record client_defaults.client { tunnels = app ∷ [] }

abbrev pub client : Client
client = new_client settings

abbrev open_frame : Bytes
open_frame = encode_frame frame_open_stream (bytes "1")

abbrev data_frame : Bytes
data_frame = encode_frame frame_stream_data (bytes "1 hello")

order_decides_example :
    (read_message talking client open_frame ≡ (client, some opening))
    × (let (b, a) = begin client (bytes "1") in
        (l : GoMap ℕ (List Bytes)) × (resume setup local
            (read_message talking b data_frame).0
            opening
            a
            received
          ≡ some (
              leave
                (forward setup local (record b { channels = l }) opening (bytes "hello"))
                (bytes "1"))))
    × (let (b, a) = begin (read_message talking client data_frame).0 (bytes "1") in
        resume setup local b opening a received ≡ none)
unfolding program
order_decides_example =
    order_decides setup local client open_frame data_frame (bytes "hello") opening
      (bytes "1", refl, refl) (bytes "1 hello", refl, refl) refl

-- The client has read the opening frame, and its handler has begun.
abbrev first : System
first = after_read setup (initial settings) open_frame

abbrev begun : System
begun = record first {
  client = (begin first.client (bytes "1")).0;
  started = [];
  running = (opening, waiting (begin first.client (bytes "1")).1 false) ∷ first.running;
}

begun-Reach : Reach setup (initial settings) begun
unfolding program
begun-Reach = next (next here (reads open_frame refl)) (begins [] [] opening refl refl)

pending-running_example : GoMap.get begun.client.pending (bytes "2") ≡ none
unfolding program
pending-running_example = pending-running setup settings begun (bytes "2") begun-Reach refl
