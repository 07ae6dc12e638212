-- ===== src/Tests/EndToEnd.antt =====
-- One request, and one handshake, with a client and a gateway.
use go_tunnel.Base.{
  subst, List, Option, ◌++◌, bytes_beq_iff, ℕ, Bytes, bytes, bytes_beq, true, none, some, [], ◌∷◌,
  ◌≡◌, refl, arith, bytes_eq, nat_eq,
}
use go_tunnel.Base.Int.{pos}
use go_tunnel.Base.Decimal.{format_uint, format_loop, atoi_ok, parse_loop}
use go_tunnel.Base.Hex.{cut}
use go_tunnel.GoMap
use go_tunnel.GoMap.Assoc.{find, without}
use go_tunnel.Protocol.{ControlResponse, frame_register, frame_control_response}
use go_tunnel.Protocol.Frame.{
  Json, encode_frame, put_uint32, get_uint32, read_full, decode_payload, decode_header,
  decode_frame, decode_control_message, encode_control_message,
}
use go_tunnel.Registry.{
  new_memory_registry, reserve_all, register, insert_tunnel, with_ttl, too_long, get_by_subdomain,
}
use go_tunnel.Broker.{
  new_broker, add_connection, map_subdomain, open_stream, get_connection_by_subdomain,
}
use go_tunnel.Broker.Invariant.{step}
use go_tunnel.Server.{Codecs, Server, new_server}
use go_tunnel.Config.{client_defaults}
use go_tunnel.Server.Connect.{
  format_int, closed, handle_connect, expect_register, read_register, added,
}
use go_tunnel.Server.{send_control_response}
use go_tunnel.Host.{
  trim_left, trim_right, cut_last, strip_port, has_suffix, trim_suffix, label_below, to_lower,
  trim_space, extract_subdomain,
}
use go_tunnel.Proxy.{
  Setup, Request, refuse, give_up, socket, join_values, join_headers, envelope, open_message,
  send_data, send_request, send_open, open_request, route_request, serve_http,
}
use go_tunnel.Client.{resolve_port, port_loop}
use go_tunnel.Client.Session.{new_client}
use go_tunnel.Client.Handler.{
  HttpRequest, LocalCall, LocalAnswer, answered, response_headers, canonical_key, recase,
  is_field_name,
}
use go_tunnel.Client.Connect.{
  Link, connect, prepare_tls, load_ca, register_frame, register_message, tunnel_config, refused,
}
use go_tunnel.EndToEnd.{mirrored}
use go_tunnel.EndToEnd.Headers.{IsCanonical}
use go_tunnel.EndToEnd.Understood.{Understood, passed_on}
use go_tunnel.EndToEnd.Journey.{Completed, request_answered}
use go_tunnel.EndToEnd.Handshake.{KeepsPlain, handshake_agrees}
use go_tunnel.Tests.Auth.{toy_mac}
use go_tunnel.Tests.Broker.{routed-Inv, room}
use go_tunnel.Tests.Registry.{app, empty_registry, app_registry}
use go_tunnel.Tests.Proxy.{toy_setup, gateway, get_page, both}
use go_tunnel.Tests.Server.{toy_codecs, started}
use go_tunnel.Tests.Session.{talking, response_json, settings, client}

program : Unit {0}
unfolding bytes_beq format_uint format_loop atoi_ok parse_loop cut GoMap.empty GoMap.get GoMap.put
    GoMap.delete GoMap.range find without encode_control_message decode_control_message encode_frame
    put_uint32 get_uint32 read_full decode_payload decode_header decode_frame new_memory_registry
    reserve_all register insert_tunnel with_ttl too_long get_by_subdomain new_broker add_connection
    map_subdomain open_stream get_connection_by_subdomain step trim_left trim_right cut_last
    strip_port has_suffix trim_suffix label_below to_lower trim_space extract_subdomain refuse
    give_up socket join_values join_headers envelope open_message send_data send_request send_open
    open_request route_request serve_http resolve_port port_loop new_client response_headers
program = tt

-- The user accepts two types; the local service answers with what it was asked.
abbrev get_news : Request
get_news = record get_page {
  header = GoMap.put GoMap.empty (bytes "Accept") (bytes "a" ∷ bytes "b" ∷ []);
}

abbrev accepted_types : Option (List Bytes) → Bytes
accepted_types none = []
accepted_types (some values) = join_values values

abbrev page_header : GoMap.GoMap Bytes (List Bytes)
page_header = GoMap.put GoMap.empty (bytes "Vary") (bytes "Accept" ∷ bytes "Origin" ∷ [])

abbrev echo : LocalCall → LocalAnswer
echo call = answered (pos 404) page_header (
    call.method ++ accepted_types (GoMap.get call.header (bytes "Accept")) ++ call.url ++ call.body)

abbrev page : Bytes
page = bytes "GETa, bhttp://127.0.0.1:3000/hello"

abbrev news_json : Json HttpRequest
news_json = record {
  marshal = λ r. some r.body;
  unmarshal = λ b. some (mirrored (envelope get_news b));
}

abbrev gw : Setup
gw = record toy_setup {
  codecs = talking;
  response = record {
    marshal = λ r. none;
    unmarshal = λ b. some (passed_on (pos 404) page_header b);
  };
}

abbrev asked : Server
asked = (serve_http gw gateway get_news both).0

only_accept :
    (k : Bytes) (values : List Bytes)
    → GoMap.get get_news.header k ≡ some values
    → bytes "Accept" ≡ k
only_accept k values h = ground (
  arith,
  GoMap.get-put GoMap.empty (bytes "Accept") k (bytes "a" ∷ bytes "b" ∷ []),
  GoMap.get-empty {V = List Bytes} k,
  bytes_beq_iff (bytes "Accept") k,
)

canonical_accept : canonical_key (bytes "Accept") ≡ bytes "Accept"
unfolding canonical_key recase is_field_name
canonical_accept = refl

get_news-IsCanonical : IsCanonical get_news.header
get_news-IsCanonical k values h =
    subst (λ name. canonical_key name ≡ name) (only_accept k values h) canonical_accept

understood :
    Understood gw news_json response_json echo client get_news 1
      (bytes "c1-app")
      (bytes "hello")
      (bytes "hello")
unfolding program client_defaults format_int
understood = record {
  opening = record {
    payload = bytes "1";
    marshalled = refl;
    unmarshalled = refl;
    fits = omega arith;
  };
  carrying = record {
    payload = bytes "1 hello";
    marshalled = refl;
    unmarshalled = refl;
    fits = omega arith;
  };
  parsed = refl;
  there = refl;
  status = pos 404;
  header = page_header;
  page = page;
  called = λ call a i.
      answered (pos 404) page_header
        (a.method i ++ accepted_types (a.header (bytes "Accept") i) ++ a.url i ++ a.content i);
  canonical = get_news-IsCanonical;
  content = page;
  made = refl;
  back = record {
    payload = bytes "1 " ++ page;
    marshalled = refl;
    unmarshalled = refl;
    fits = omega arith;
  };
  closing = record {
    payload = bytes "1";
    marshalled = refl;
    unmarshalled = refl;
    fits = omega arith;
  };
  accepted = refl;
  above = omega arith;
  below = omega arith;
}

request_answered_example :
    (ws : ℕ) × (open_frame : Bytes) × (data_frame : Bytes) × (asked.sent
      ≡ (ws, data_frame) ∷ (ws, open_frame) ∷ gateway.sent)
    × Completed gw news_json response_json echo asked get_news 0 1 1 client true
        (λ n. pos n)
        (bytes "c1-app" ∷ [])
        (open_message get_news 1 (bytes "c1-app"))
        open_frame
        data_frame
        (pos 404)
        page_header
        page
unfolding program understood
request_answered_example =
    request_answered gw news_json response_json echo gateway asked get_news both 0 1 1 client true
      (λ n. pos n) (bytes "c1-app" ∷ []) (with_ttl empty_registry app) (bytes "hello")
      (bytes "hello") routed-Inv room refl refl refl refl refl understood

handshake_parts : Unit {0}
unfolding handle_connect expect_register read_register send_control_response prepare_tls load_ca
    register_frame register_message tunnel_config client_defaults new_server
handshake_parts = tt

-- A control response is its code and its message.
abbrev control_json : Json ControlResponse
control_json = record {
  marshal = λ r. some (r.code ∷ r.message);
  unmarshal = λ b. elim b [ [] ↦ none | c ∷ m ↦ some (record { code = c; message = m }) ];
}

abbrev codecs : Codecs
codecs = record toy_codecs {
  register = record { marshal = λ r. some r.token; unmarshal = λ b. none };
  control_response = control_json;
}

control_json-KeepsPlain : KeepsPlain control_json
control_json-KeepsPlain code message plain = record {
  payload = code ∷ message;
  marshalled = refl;
  unmarshalled = refl;
  fits = ground arith;
}

abbrev refusal : Bytes
refusal = encode_frame frame_control_response (2002 ∷ bytes "invalid register payload")

abbrev link : Bytes → Link
link first = record {
  files = λ path. some [];
  has_certificate = λ pem. true;
  goos = bytes "linux";
  dials = true;
  writes = true;
  first = some first;
}

abbrev register_bytes : Bytes
register_bytes = encode_frame frame_register settings.token

-- The gateway cannot read the register message.
handshake_agrees_example :
    (message : Bytes) × (code : ℕ) × (connect codecs (link refusal) settings
      ≡ some (refused message code))
unfolding program handshake_parts
handshake_agrees_example =
    handshake_agrees codecs toy_mac (λ n. pos n) (link refusal) settings 7 register_bytes refusal
      started (record started { sent = (7, refusal) ∷ [] }) closed control_json-KeepsPlain refl refl
      refl refl refl refl refl

-- The gateway has the connection "c1", and registers the tunnel "app".
abbrev joining : Server
joining = record gateway {
  broker = (add_connection new_broker (bytes "c1") (bytes "ann") 7).0;
  registry = empty_registry;
}

abbrev app_added : Server
app_added = added joining app_registry (bytes "c1") (bytes "app")

abbrev gw_codecs : Codecs
gw_codecs = record talking { register = codecs.register }

abbrev early_gw : Setup
early_gw = record toy_setup { codecs = gw_codecs }
