-- ===== src/Proxy/Delivered.antt =====
-- From the client's data frame to the user's answer.
use go_tunnel.Base.{
  ℕ, ◌^◌, ◌<◌, Bytes, bytes, Bool, true, false, some, List, [], ◌∷◌, ◌++◌, map, arith, ◌≡◌, refl,
  length, nat_eq, bytes_eq,
}
use go_tunnel.Base.Int.{int_eq, pos, ◌≤ℤ◌}
use go_tunnel.Proxy.Seen.{IsShown, written-IsShown}
use go_tunnel.Base.Decimal.{format_uint, parse-format_uint}
use go_tunnel.GoMap
use go_tunnel.Protocol.Frame.{decode_control_message}
use go_tunnel.Broker.{Stream, stream, set_stream, close_stream}
use go_tunnel.Broker.Streams.{close_stream_lem}
use go_tunnel.Proxy.Answered.{conn_of}
use go_tunnel.Metrics.{add_bytes_recv, inc_requests}
use go_tunnel.Server.{Server}
use go_tunnel.Server.Connect.{format_int}
use go_tunnel.Server.Messages.{
  get_stream, handle_stream_data, handle_close_stream, deliver_stream_data, deliver_at,
  select_delivery,
}
use go_tunnel.Proxy.{
  Request, HttpResponse, Setup, WriterCall, write_header, error, response, done, refuse, wake,
  resume, take_response, finish_response, write_response, header_call, body_calls, writable,
}

-- A stream is open under the id on the connection, and nothing has been delivered to it.
pub record IsWaiting (s : Server) (a x id : ℕ) : Type 0 where
  pub at : Stream
  pub entered : get_stream s.broker a id ≡ some x
  pub there : stream s.broker x ≡ some at
  pub nothing_yet : at.response ≡ []
  pub still_open : at.done ≡ false
  pub fits : id < 2 ^ 32

-- The data is in the stream's channel.
abbrev pub delivered : Server → ℕ → Stream → Bytes → Server
delivered s x st d = record s { broker = set_stream s.broker x (record st { response = d ∷ [] }) }

-- The calls that write a response out.
abbrev written : Setup → HttpResponse → List WriterCall
written setup resp =
    map (header_call setup) (GoMap.range resp.headers)
    ++ write_header resp.status_code ∷ body_calls setup resp.body

module _ (setup : Setup) where
  handle_stream_data-delivered :
      (s : Server) (chosen : Bool) (a x id : ℕ) (payload d : Bytes)
      → (v : IsWaiting s a x id)
      → decode_control_message setup.codecs.stream_data payload
        ≡ some (record { stream_id = format_uint id; content = d })
      → handle_stream_data setup.codecs chosen a payload s ≡ some (delivered s x v.at d)
  unfolding handle_stream_data deliver_stream_data deliver_at select_delivery
  handle_stream_data-delivered s chosen a x id payload d v e =
      ground (arith, parse-format_uint id v.fits, v.entered, v.there, v.nothing_yet, v.still_open)

  finish_response-written :
      (s : Server) (r : Request) (d : Bytes) (resp : HttpResponse)
      → setup.response.unmarshal d ≡ some resp
      → writable setup resp.status_code ≡ true
      → finish_response setup s r d ≡ (
        record s {
          metrics =
              inc_requests (format_int resp.status_code) r.method
              ∷ add_bytes_recv (length d)
              ∷ s.metrics;
        },
        written setup resp,
      )
  unfolding finish_response write_response
  finish_response-written s r d resp e ok_status = ground arith

  pub deliver-resume :
      (s : Server) (r : Request) (chosen : Bool) (a x id : ℕ) (payload d : Bytes)
      (resp : HttpResponse)
      → IsWaiting s a x id
      → decode_control_message setup.codecs.stream_data payload
        ≡ some (record { stream_id = format_uint id; content = d })
      → setup.response.unmarshal d ≡ some resp
      → pos 100 ≤ℤ resp.status_code
      → resp.status_code ≤ℤ pos 999
      → (t : Server) × (s' : Server) × (calls : List WriterCall) × (handle_stream_data setup.codecs
            chosen a payload s
          ≡ some t)
        × (resume setup t r response a x id ≡ some (s', calls))
        × IsShown resp calls
        × (s'.metrics
            ≡ inc_requests (format_int resp.status_code) r.method
              ∷ add_bytes_recv (length d)
              ∷ s.metrics)
        × (s'.registry ≡ s.registry)
  unfolding resume wake take_response
  deliver-resume s r chosen a x id payload d resp v e f above below =
      let t = delivered s x v.at d in
      let taken : Server = record t {
        broker = set_stream t.broker x (record v.at { response = [] });
      } in
      let put = GoMap.get-put s.broker.heap.stream_at x x (record v.at { response = d ∷ [] }) in
      let ok_status : writable setup resp.status_code ≡ true = ground arith in
      let answer = finish_response-written taken r d resp f ok_status in
      let metrics =
        inc_requests (format_int resp.status_code) r.method
        ∷ add_bytes_recv (length d)
        ∷ s.metrics in
      (
        t,
        record taken { metrics = metrics; broker = close_stream taken.broker a id },
        written setup resp,
        handle_stream_data-delivered s chosen a x id payload d v e,
        ground (arith, put, answer),
        written-IsShown setup resp,
        refl,
        refl,
      )

  -- The client closes the stream behind its data frame. If the read loop handles both frames before
  -- the handler runs, the select may also take the case of the closed stream: the user is answered
  -- with a 502 though the response has arrived.
  pub deliver-close-resume :
      (s : Server) (r : Request) (chosen : Bool) (a x id : ℕ) (payload close_payload d : Bytes)
      → IsWaiting s a x id
      → decode_control_message setup.codecs.stream_data payload
        ≡ some (record { stream_id = format_uint id; content = d })
      → decode_control_message setup.codecs.close_stream close_payload
        ≡ some (record { stream_id = format_uint id })
      → (t : Server) × (s' : Server) × (handle_stream_data setup.codecs chosen a payload s ≡ some t)
        × (resume setup (handle_close_stream setup.codecs a close_payload t) r done a x id
            ≡ some (s', error (bytes "502 Bad Gateway: stream closed") 502 ∷ []))
  unfolding resume wake refuse handle_close_stream get_stream
  deliver-close-resume s r chosen a x id payload close_payload d v e f =
      let t = delivered s x v.at d in
      let st : Stream = record v.at { response = d ∷ [] } in
      let put = GoMap.get-put s.broker.heap.stream_at x x st in
      let (c, hc, hs) = conn_of t.broker a id x v.entered in
      let (_, shut, _, _) = close_stream_lem t.broker a id x c hc hs in
      let t' : Server = record t { broker = close_stream t.broker a id } in
      let closed : handle_close_stream setup.codecs a close_payload t ≡ t' =
        ground (arith, parse-format_uint id v.fits) in
      let found : stream t'.broker x ≡ some (record st { done = true }) =
        ground (arith, shut, put) in
      (
        t,
        record t' {
          metrics = inc_requests (format_uint 502) r.method ∷ s.metrics;
          broker = close_stream t'.broker a id;
        },
        handle_stream_data-delivered s chosen a x id payload d v e,
        rw closed (ground (arith, found)),
      )
