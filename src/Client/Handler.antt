-- ===== src/Client/Handler.antt =====
-- internal/client/client.go: handleOpenStream, as two steps with the wait for the request between
-- them: `begin` enters the stream, `resume` goes on from the case that the select took. The call of
-- the local service is net/http's: what comes of a request is a parameter.
use go_tunnel.Base.{
  ℕ, suc, ◌+◌, ◌-◌, Bytes, bytes, Bool, true, not, ◌&&◌, ◌||◌, Option, none, some, List, [], ◌∷◌,
  ◌++◌, leb, nat_eq, bytes_eq, ◌==◌, if◌then◌else◌,
}
use go_tunnel.Base.Int.{ℤ, pos, int_eq}
use go_tunnel.Base.Member.{contains}
use go_tunnel.GoMap
use go_tunnel.GoMap.{GoMap}
use go_tunnel.Config.Types.{ClientSettings}
use go_tunnel.Protocol.{OpenStream}
use go_tunnel.Protocol.Frame.{Json}
use go_tunnel.Server.{Codecs}
use go_tunnel.Server.Connect.{format_int}
use go_tunnel.Proxy.{join_values}
use go_tunnel.Client.{resolve_port}
use go_tunnel.Client.Session.{Client, send_stream_data, send_close_stream}

pub record HttpRequest : Type 0 where
  pub method : Bytes
  pub path : Bytes
  pub headers : GoMap Bytes Bytes
  pub body : Bytes

pub record HttpResponse : Type 0 where
  pub status_code : ℤ
  pub headers : GoMap Bytes Bytes
  pub body : Bytes

-- What the client asks of the local service.
pub record LocalCall : Type 0 where
  pub method : Bytes
  pub url : Bytes
  pub header : GoMap Bytes (List Bytes)
  pub body : Bytes

-- NewRequest failed, Do failed, the body could not be read; or there is a response.
pub data LocalAnswer : Type 0 where
  not_created unreachable unread : LocalAnswer
  answered : ℤ → GoMap Bytes (List Bytes) → Bytes → LocalAnswer

pub record Setup : Type 0 where
  pub codecs : Codecs
  pub request : Json HttpRequest
  pub response : Json HttpResponse

-- The case that the select took.
pub data Woken : Type 0 where
  received done closed timeout : Woken

abbrev is_token_mark : ℕ → Bool
is_token_mark c = contains (bytes "!#$%&'*+-.^_`|~") c

abbrev is_upper : ℕ → Bool
is_upper c = leb 65 c && leb c 90

abbrev is_lower : ℕ → Bool
is_lower c = leb 97 c && leb c 122

abbrev is_field_byte : ℕ → Bool
is_field_byte c = leb 48 c && leb c 57 || is_upper c || is_lower c || is_token_mark c

unfoldable pub is_field_name : Bytes → Bool
is_field_name [] = true
is_field_name (c ∷ cs) = is_field_byte c && is_field_name cs

-- A letter behind a dash or at the start is made a capital, any other a small letter.
unfoldable pub recase : Bool → Bytes → Bytes
recase upper [] = []
recase upper (c ∷ cs) =
    let rest = recase (c == b'-') cs in
    if upper && is_lower c
    then (c - 32) ∷ rest
    else if not upper && is_upper c
    then (c + 32) ∷ rest
    else c ∷ rest

-- textproto.CanonicalMIMEHeaderKey.
unfoldable pub canonical_key : Bytes → Bytes
unfolding is_field_name recase
canonical_key k = if is_field_name k then recase true k else k

-- The loop over req.Headers, with http.Header's Set.
unfoldable pub set_headers :
    List (Bytes × Bytes) → GoMap Bytes (List Bytes) → GoMap Bytes (List Bytes)
unfolding canonical_key
set_headers [] header = header
set_headers ((k, v) ∷ rest) header = set_headers rest (GoMap.put header (canonical_key k) (v ∷ []))

-- The loop over httpResp.Header.
unfoldable pub response_headers : List (Bytes × List Bytes) → GoMap Bytes Bytes → GoMap Bytes Bytes
response_headers [] headers = headers
response_headers ((k, v) ∷ rest) headers =
    response_headers rest (GoMap.put headers k (join_values v))

abbrev local_bind : ClientSettings → Bytes
local_bind s = if s.local_bind == [] then bytes "127.0.0.1" else s.local_bind

unfoldable pub target_url : ClientSettings → ℤ → Bytes → Bytes
target_url s port path = bytes "http://" ++ local_bind s ++ b':' ∷ format_int port ++ path

unfoldable pub local_call : ClientSettings → ℤ → HttpRequest → LocalCall
unfolding target_url set_headers
local_call s port req = record {
  method = req.method;
  url = target_url s port req.path;
  header = set_headers (GoMap.range req.headers) GoMap.empty;
  body = req.body;
}

-- The channel of the stream is made and entered; the result is its address.
unfoldable pub begin : Client → Bytes → Client × ℕ
begin c stream_id = (
  record c {
    pending = GoMap.put c.pending stream_id c.next_channel;
    channels = GoMap.put c.channels c.next_channel [];
    next_channel = suc c.next_channel;
  },
  c.next_channel,
)

-- The deferred call.
unfoldable pub leave : Client → Bytes → Client
leave c stream_id = record c { pending = GoMap.delete c.pending stream_id }

module _ (setup : Setup) where
  -- The response and the end of the stream; nothing if the response cannot be marshalled.
  unfoldable pub send_response : Client → Bytes → HttpResponse → Client
  send_response c stream_id resp = elim (setup.response.marshal resp) [
    | none ↦ c
    | some content ↦
        send_close_stream setup.codecs (send_stream_data setup.codecs c stream_id content) stream_id
  ]

  unfoldable pub send_error_response : Client → Bytes → ℤ → Bytes → Client
  unfolding send_response
  send_error_response c stream_id status_code message = send_response c stream_id (record {
    status_code = status_code;
    headers = GoMap.put GoMap.empty (bytes "Content-Type") (bytes "text/plain");
    body = message;
  })

  unfoldable pub answer : Client → Bytes → LocalAnswer → Client
  unfolding send_error_response send_response response_headers
  answer c stream_id not_created = c
  answer c stream_id unreachable =
      send_error_response c stream_id (pos 502) (bytes "local service unavailable")
  answer c stream_id unread = c
  answer c stream_id (answered status header body) = send_response c stream_id (record {
    status_code = status;
    headers = response_headers (GoMap.range header) GoMap.empty;
    body = body;
  })

  module _ (local : LocalCall → LocalAnswer) where
    -- From the request's bytes on.
    unfoldable pub forward : Client → OpenStream → Bytes → Client
    unfolding answer local_call
    forward c os req_data = elim (setup.request.unmarshal req_data) [
      | none ↦ c
      | some req ↦
          let port = resolve_port c.settings.tunnels os.target_tunnel in
          if port == pos 0
          then c
          else answer c os.stream_id (local (local_call c.settings port req))
    ]

    abbrev pub take_content : Client → OpenStream → ℕ → Option (List Bytes) → Option Client
    take_content c os a none = none
    take_content c os a (some []) = none
    take_content c os a (some (m ∷ ms)) =
        some (forward (record c { channels = GoMap.put c.channels a ms }) os m)

    -- `none` if the case is not ready. That the 30 seconds are over is up to the clock.
    unfoldable pub wake : Client → OpenStream → ℕ → Woken → Option Client
    unfolding forward
    wake c os a received = take_content c os a (GoMap.get c.channels a)
    wake c os a done = if c.done then some c else none
    wake c os a closed = if c.closed then some c else none
    wake c os a timeout = some c

    abbrev pub then_leave : Bytes → Option Client → Option Client
    then_leave stream_id none = none
    then_leave stream_id (some c) = some (leave c stream_id)

    unfoldable pub resume : Client → OpenStream → ℕ → Woken → Option Client
    unfolding wake leave
    resume c os a woken = then_leave os.stream_id (wake c os a woken)
