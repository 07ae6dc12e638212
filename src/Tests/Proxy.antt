-- ===== src/Tests/Proxy.antt =====
-- internal/proxy/proxy.go, ServeHTTP for one client. A data message is its stream id, a blank and the
-- content here, a response its body.
use go_tunnel.Base.{
  inr, Bytes, bytes, bytes_beq, true, false, Option, none, some, [], ◌∷◌, ◌++◌, ◌≡◌, refl, arith,
  bytes_eq, nat_eq,
}
use go_tunnel.Base.Int.{pos}
use go_tunnel.Base.Decimal.{format_uint, format_loop, atoi_ok, parse_loop, parse_uint32}
use go_tunnel.Base.Hex.{cut}
use go_tunnel.GoMap
use go_tunnel.GoMap.Assoc.{find, without}
use go_tunnel.Protocol.{StreamData, CloseStream}
use go_tunnel.Protocol.Frame.{Json, encode_control_message, decode_control_message}
use go_tunnel.Registry.{
  new_memory_registry, reserve_all, register, insert_tunnel, with_ttl, too_long, get_by_subdomain,
}
use go_tunnel.Broker.{
  new_broker, add_connection, map_subdomain, open_stream, close_stream, close_done,
  get_connection_by_subdomain,
}
use go_tunnel.Broker.Invariant.{step}
use go_tunnel.Metrics.{inc_requests}
use go_tunnel.Server.{Server}
use go_tunnel.Server.Messages.{get_stream, handle_stream_data, handle_close_stream}
use go_tunnel.Host.{
  trim_left, trim_right, cut_last, strip_port, has_suffix, trim_suffix, label_below, to_lower,
  trim_space, extract_subdomain,
}
use go_tunnel.Proxy.{
  Request, HttpResponse, Setup, Writes, error, response, done, refuse, give_up, socket, join_values,
  join_headers, envelope, open_message, send_data, send_request, send_open, open_request,
  route_request, serve_http, wake, resume,
}
use go_tunnel.Proxy.Refused.{Unharmed, serve_http-answered}
use go_tunnel.Proxy.Opened.{IsOpened, serve_http-waiting}
use go_tunnel.Proxy.Answered.{IsShut, resume-closes}
use go_tunnel.Proxy.Delivered.{IsWaiting, deliver-close-resume}
use go_tunnel.Tests.Registry.{app_registry}
use go_tunnel.Tests.Auth.{ann_store}
use go_tunnel.Tests.Broker.{routed, routed-Inv, room}
use go_tunnel.Tests.Host.{ascii_only}
use go_tunnel.Tests.Server.{toy_codecs}

program : Unit {0}
unfolding bytes_beq format_uint format_loop atoi_ok parse_loop parse_uint32 cut GoMap.empty
    GoMap.get GoMap.put GoMap.delete GoMap.range find without encode_control_message
    decode_control_message new_memory_registry reserve_all register insert_tunnel with_ttl too_long
    get_by_subdomain new_broker add_connection map_subdomain open_stream close_stream close_done
    get_connection_by_subdomain step get_stream trim_left trim_right cut_last strip_port has_suffix
    trim_suffix label_below to_lower trim_space extract_subdomain refuse give_up socket join_values
    join_headers envelope open_message send_data send_request send_open open_request route_request
    serve_http wake resume
program = tt

abbrev spaced : Option (Bytes × Bytes) → Option StreamData
spaced none = none
spaced (some (id, content)) = some (record { stream_id = id; content = content })

abbrev data_json : Json StreamData
data_json = record {
  marshal = λ sd. some (sd.stream_id ++ b' ' ∷ sd.content);
  unmarshal = λ b. spaced (cut b' ' b);
}

abbrev close_json : Json CloseStream
close_json = record {
  marshal = λ cs. some cs.stream_id;
  unmarshal = λ b. some (record { stream_id = b });
}

abbrev pub fine : Bytes → HttpResponse
fine body = record { status_code = pos 200; headers = GoMap.empty; body = body }

abbrev pub toy_setup : Setup
toy_setup = record {
  codecs = record toy_codecs {
    open_stream = record { marshal = λ m. some m.stream_id; unmarshal = λ b. none };
    stream_data = data_json;
    close_stream = close_json;
  };
  request = record { marshal = λ r. some r.body; unmarshal = λ b. none };
  response = record { marshal = λ r. none; unmarshal = λ b. some (fine b) };
  unicode = ascii_only;
  public_hostname = bytes "gt.io";
}

abbrev pub gateway : Server
gateway = record {
  registry = app_registry;
  broker = routed;
  auth = ann_store;
  metrics = [];
  sent = [];
}

abbrev pub get_page : Request
get_page = record {
  method = bytes "GET";
  host = bytes "app.gt.io:80";
  request_uri = bytes "/";
  header = GoMap.empty;
  body = some (bytes "hello");
}

abbrev pub both : Writes
both = record { opening = true; content = true }

abbrev open_only : Writes
open_only = record { opening = true; content = false }

abbrev asked : Server
asked = (serve_http toy_setup gateway get_page both).0

serve_http-answered_example :
    Unharmed gateway
      (serve_http toy_setup gateway get_page open_only).0
      (bytes "GET")
      (error (bytes "502 Bad Gateway") 502 ∷ [])
unfolding program
serve_http-answered_example =
    serve_http-answered toy_setup gateway (serve_http toy_setup gateway get_page open_only).0
      get_page open_only (error (bytes "502 Bad Gateway") 502 ∷ []) routed-Inv room refl

serve_http-waiting_example : IsOpened toy_setup gateway asked get_page 0 1 1
unfolding program
serve_http-waiting_example =
    serve_http-waiting toy_setup gateway asked get_page both 0 1 1 routed-Inv room refl

-- The client has closed the stream before the handler runs.
abbrev closed_first : Server
closed_first = record asked { broker = close_stream asked.broker 0 1 }

abbrev after_closed : Server
after_closed = record closed_first {
  broker = close_stream closed_first.broker 0 1;
  metrics = inc_requests (bytes "502") (bytes "GET") ∷ asked.metrics;
}

resume-closes_example : (get_stream after_closed.broker 0 1 ≡ none) × IsShut after_closed.broker 1
unfolding program
resume-closes_example =
    resume-closes toy_setup closed_first after_closed get_page done 0 1 1
      (error (bytes "502 Bad Gateway: stream closed") 502 ∷ [])
      (inr (record { id = 1; tunnel_id = bytes "c1-app"; response = []; done = true }, refl, refl))
      refl

asked-IsWaiting : IsWaiting asked 0 1 1
unfolding program
asked-IsWaiting = record {
  at = record { id = 1; tunnel_id = bytes "c1-app"; response = []; done = false };
  entered = refl;
  there = refl;
  nothing_yet = refl;
  still_open = refl;
  fits = omega arith;
}

-- A response with a header.
abbrev plain : Bytes → HttpResponse
plain body = record {
  status_code = pos 404;
  headers = GoMap.put GoMap.empty (bytes "Content-Type") (bytes "text/plain");
  body = body;
}

abbrev plain_setup : Setup
plain_setup = record toy_setup {
  response = record { marshal = λ r. none; unmarshal = λ b. some (plain b) };
}

deliver-close-resume_example :
    (t : Server) × (s' : Server) × (handle_stream_data toy_setup.codecs true 0 (bytes "1 hi") asked
      ≡ some t)
    × (resume toy_setup (handle_close_stream toy_setup.codecs 0 (bytes "1") t) get_page done 0 1 1
        ≡ some (s', error (bytes "502 Bad Gateway: stream closed") 502 ∷ []))
unfolding program
deliver-close-resume_example =
    deliver-close-resume toy_setup asked get_page true 0 1 1 (bytes "1 hi") (bytes "1") (bytes "hi")
      asked-IsWaiting refl refl
