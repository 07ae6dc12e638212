-- ===== src/Client/Session.antt =====
-- internal/client/client.go: what a client holds of one connection, the frames that it sends and the
-- read loop. A channel of the map pendingStreams is shared with the handler that made it, so the
-- channels have addresses. A write to the WebSocket is recorded in `sent`, newest first: whether it
-- succeeds changes nothing but a log line.
use go_tunnel.Base.{
  ℕ, Bytes, Bool, true, false, Option, none, some, List, [], ◌∷◌, nat_eq, bytes_eq, ◌==◌,
  if◌then◌else◌,
}
use go_tunnel.Base.Result.{Result, ok, err}
use go_tunnel.GoMap
use go_tunnel.GoMap.{GoMap}
use go_tunnel.Config.Types.{ClientSettings}
use go_tunnel.Protocol.{OpenStream, frame_open_stream, frame_stream_data, frame_close_stream}
use go_tunnel.Protocol.Frame.{
  FrameError, decode_frame, encode_control_message, decode_control_message,
}
use go_tunnel.Server.{Codecs}

-- `done` and `closed` tell whether those channels are closed. The WebSocket, its lock and the logger
-- are left out.
pub record Client : Type 0 where
  pub settings : ClientSettings
  pub done : Bool
  pub closed : Bool
  pub pending : GoMap Bytes ℕ
  pub channels : GoMap ℕ (List Bytes)
  pub next_channel : ℕ
  pub sent : List Bytes

unfoldable pub new_client : ClientSettings → Client
new_client settings = record {
  settings = settings;
  done = false;
  closed = false;
  pending = GoMap.empty;
  channels = GoMap.empty;
  next_channel = 0;
  sent = [];
}

-- The state of the connection set afresh, as Run does in front of each call of Connect.
unfoldable pub reset : Client → Client
reset c = record c { done = false; pending = GoMap.empty }

abbrev pub write_message : Client → Option Bytes → Client
write_message c none = c
write_message c (some frame) = record c { sent = frame ∷ c.sent }

-- deliverStreamData: a channel has room for one message.
unfoldable pub deliver_at : Client → ℕ → Option (List Bytes) → Bytes → Client
deliver_at c a none content = c
deliver_at c a (some []) content = record c { channels = GoMap.put c.channels a (content ∷ []) }
deliver_at c a (some (m ∷ ms)) content = c

unfoldable pub deliver_stream_data : Client → Bytes → Bytes → Client
unfolding deliver_at
deliver_stream_data c stream_id content = elim (GoMap.get c.pending stream_id) [
  | none ↦ c
  | some a ↦ deliver_at c a (GoMap.get c.channels a) content
]

-- The read loop ends when a message cannot be read, and closes `done`.
unfoldable pub read_failed : Client → Client
read_failed c = record c { done = true }

-- Close; the WebSocket's own close message is not a frame.
unfoldable pub close : Client → Client
close c = record c { closed = true }

module _ (codecs : Codecs) where
  unfoldable pub send_stream_data : Client → Bytes → Bytes → Client
  send_stream_data c stream_id content = write_message c (
      encode_control_message codecs.stream_data frame_stream_data
        (record { stream_id = stream_id; content = content }))

  unfoldable pub send_close_stream : Client → Bytes → Client
  send_close_stream c stream_id = write_message c (
      encode_control_message codecs.close_stream frame_close_stream
        (record { stream_id = stream_id }))

  unfoldable pub handle_data : Client → Bytes → Client
  unfolding deliver_stream_data
  handle_data c payload = elim (decode_control_message codecs.stream_data payload) [
    | none ↦ c
    | some sd ↦ deliver_stream_data c sd.stream_id sd.content
  ]

  -- The switch of the read loop: the client, and the stream whose handler is started as a goroutine.
  -- A heartbeat and a control response are only logged.
  unfoldable pub dispatch : Client → Result FrameError (ℕ × Bytes) → Client × Option OpenStream
  unfolding handle_data
  dispatch c (err e) = (c, none)
  dispatch c (ok (frame_type, payload)) =
      if frame_type == frame_open_stream
      then (c, decode_control_message codecs.open_stream payload)
      else if frame_type == frame_stream_data
      then (handle_data c payload, none)
      else (c, none)

  unfoldable pub read_message : Client → Bytes → Client × Option OpenStream
  unfolding dispatch
  read_message c raw = dispatch c (decode_frame raw).0
