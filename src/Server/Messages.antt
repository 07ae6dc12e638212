-- ===== src/Server/Messages.antt =====
-- internal/server/server.go: readLoop and its handlers. A message is handled in one step, except for
-- a delivery, which waits until the stream's Response channel has room or its Done channel is closed.
use go_tunnel.Base.{
  ℕ, suc, Bytes, Bool, not, Option, none, some, List, [], ◌∷◌, ◌++◌, nat_eq, ◌==◌, length, ltb,
  ◌&&◌, ◌||◌, if◌then◌else◌,
}
use go_tunnel.Base.Int.{ℤ}
use go_tunnel.Base.Decimal.{parse_uint32}
use go_tunnel.Base.Result.{Result, ok, err}
use go_tunnel.GoMap
use go_tunnel.Protocol.{frame_heartbeat, frame_stream_data, frame_close_stream}
use go_tunnel.Protocol.Frame.{FrameError, decode_frame, decode_control_message}
use go_tunnel.Registry
use go_tunnel.Broker.{Broker, Stream, conn, stream, set_stream, close_stream}
use go_tunnel.Server.{Codecs, Server, cleanup_connection}

-- The loop of handleHeartbeat; the clock is read once for each tunnel.
unfoldable pub heartbeat_loop : (ℕ → ℤ) → List Bytes → ℕ → Server → Server
heartbeat_loop clock [] n s = s
heartbeat_loop clock (id ∷ rest) n s =
    heartbeat_loop clock rest (suc n)
      (record s { registry = (Registry.update_heartbeat s.registry id (clock n)).0 })

unfoldable pub handle_heartbeat : (ℕ → ℤ) → List Bytes → Server → Server
unfolding heartbeat_loop
handle_heartbeat clock tunnel_ids s = heartbeat_loop clock tunnel_ids 0 s

-- getStream: the address of the stream that the connection has under the id.
unfoldable pub get_stream : Broker → ℕ → ℕ → Option ℕ
get_stream b a stream_id = elim (conn b a) [ none ↦ none | some c ↦ GoMap.get c.streams stream_id ]

-- The select of deliverStreamData: the channel has room for one message, or Done is closed. Where
-- both hold, Go takes either, which is `chosen`; where neither does, the read loop waits: `none`.
unfoldable pub select_delivery : Bool → Broker → ℕ → Stream → Bytes → Option Broker
select_delivery chosen b x s content =
    let room = ltb (length s.response) 1 in
    if room && (chosen || not s.done)
    then some (set_stream b x (record s { response = s.response ++ content ∷ [] }))
    else if s.done
    then some b
    else none

unfoldable pub deliver_at : Bool → Broker → ℕ → Option Stream → Bytes → Option Broker
unfolding select_delivery
deliver_at chosen b x none content = some b
deliver_at chosen b x (some s) content = select_delivery chosen b x s content

unfoldable pub deliver_stream_data : Bool → Broker → ℕ → ℕ → Bytes → Option Broker
unfolding deliver_at get_stream
deliver_stream_data chosen b a stream_id content = elim (get_stream b a stream_id) [
  | none ↦ some b
  | some x ↦ deliver_at chosen b x (stream b x) content
]

abbrev with_broker : Server → Option Broker → Option Server
with_broker s none = none
with_broker s (some b) = some (record s { broker = b })

module _ (codecs : Codecs) where
  unfoldable pub handle_stream_data : Bool → ℕ → Bytes → Server → Option Server
  unfolding deliver_stream_data
  handle_stream_data chosen a payload s = elim (decode_control_message codecs.stream_data payload) [
    | none ↦ some s
    | some sd ↦ elim (parse_uint32 sd.stream_id) [
      | none ↦ some s
      | some id ↦ with_broker s (deliver_stream_data chosen s.broker a id sd.content)
    ]
  ]

  unfoldable pub handle_close_stream : ℕ → Bytes → Server → Server
  handle_close_stream a payload s = elim (decode_control_message codecs.close_stream payload) [
    | none ↦ s
    | some cs ↦ elim (parse_uint32 cs.stream_id) [
      | none ↦ s
      | some id ↦ record s { broker = close_stream s.broker a id }
    ]
  ]

  -- The switch of the read loop.
  unfoldable pub dispatch :
      Bool → (ℕ → ℤ) → ℕ → List Bytes → Result FrameError (ℕ × Bytes) → Server → Option Server
  unfolding handle_heartbeat handle_stream_data handle_close_stream
  dispatch chosen clock a tunnel_ids (err e) s = some s
  dispatch chosen clock a tunnel_ids (ok (frame_type, payload)) s =
      if frame_type == frame_heartbeat
      then some (handle_heartbeat clock tunnel_ids s)
      else if frame_type == frame_stream_data
      then handle_stream_data chosen a payload s
      else if frame_type == frame_close_stream
      then some (handle_close_stream a payload s)
      else some s

  unfoldable pub handle_message : Bool → (ℕ → ℤ) → ℕ → List Bytes → Bytes → Server → Option Server
  unfolding dispatch
  handle_message chosen clock a tunnel_ids raw s =
      dispatch chosen clock a tunnel_ids (decode_frame raw).0 s

  -- What happens while a read loop runs: it reads a message (with the choice of its select and its
  -- clock), or another part of the gateway takes a step.
  pub data Event : Type 0 where
    message : Bool → (ℕ → ℤ) → Bytes → Event
    elsewhere : (Server → Server) → Event

  abbrev then_loop : Option Server → (Server → Option Server) → Option Server
  then_loop none k = none
  then_loop (some s) k = k s

  -- The read loop over the events until the connection ends, and the deferred clean-up. A message
  -- stands in the sequence where its handling is done; `none` if it cannot be done there, since the
  -- delivery would still wait: then the sequence is no run.
  unfoldable pub read_loop : ℕ → Bytes → List Bytes → List Event → Server → Option Server
  unfolding handle_message
  read_loop a conn_id tunnel_ids [] s = some (cleanup_connection s conn_id tunnel_ids)
  read_loop a conn_id tunnel_ids (message chosen clock raw ∷ events) s =
      then_loop (handle_message chosen clock a tunnel_ids raw s)
        (λ t. read_loop a conn_id tunnel_ids events t)
  read_loop a conn_id tunnel_ids (elsewhere step ∷ events) s =
      read_loop a conn_id tunnel_ids events (step s)
