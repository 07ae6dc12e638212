-- ===== src/Client/Ordering.antt =====
-- What the order of the client's goroutines decides.
use go_tunnel.Base.{
  ℕ, Bytes, List, none, some, [], ◌∷◌, ◌≡◌, refl, arith, bytes_eq, nat_eq, bytes_beq_iff,
}
use go_tunnel.Base.Result.{ok}
use go_tunnel.GoMap
use go_tunnel.GoMap.{GoMap}
use go_tunnel.Protocol.{OpenStream, frame_open_stream, frame_stream_data}
use go_tunnel.Protocol.Frame.{decode_frame, decode_control_message}
use go_tunnel.Server.{Codecs}
use go_tunnel.Client.Session.{
  Client, deliver_at, deliver_stream_data, handle_data, dispatch, read_message,
}
use go_tunnel.Client.Handler.{
  Setup, LocalCall, LocalAnswer, begin, forward, leave, received, resume, wake,
}

-- The message opens the stream.
abbrev pub Opens : Codecs → Bytes → OpenStream → Type 0
Opens codecs raw os =
    (payload : Bytes) × ((decode_frame raw).0 ≡ ok (frame_open_stream, payload))
    × (decode_control_message codecs.open_stream payload ≡ some os)

-- The message carries the content for the stream.
abbrev pub Carries : Codecs → Bytes → Bytes → Bytes → Type 0
Carries codecs raw id content =
    (payload : Bytes) × ((decode_frame raw).0 ≡ ok (frame_stream_data, payload))
    × (decode_control_message codecs.stream_data payload
        ≡ some (record { stream_id = id; content = content }))

module _ (codecs : Codecs) where
  pub read-Opens :
      (c : Client) (raw : Bytes) (os : OpenStream)
      → Opens codecs raw os
      → read_message codecs c raw ≡ (c, some os)
  unfolding read_message dispatch
  read-Opens c raw os (payload, framed, decoded) = rw (framed, dispatch) (ground (arith, decoded))

  pub read-Carries :
      (c : Client) (raw id content : Bytes)
      → Carries codecs raw id content
      → read_message codecs c raw ≡ (deliver_stream_data c id content, none)
  unfolding read_message dispatch handle_data
  read-Carries c raw id content (payload, framed, decoded) =
      rw (framed, dispatch) (ground (arith, decoded))

  deliver-begin :
      (c : Client) (id content : Bytes)
      → let (b, a) = begin c id in
        deliver_stream_data b id content
        ≡ record b { channels = GoMap.put b.channels a (content ∷ []) }
  unfolding deliver_stream_data deliver_at begin
  deliver-begin c id content = ground (
    arith,
    GoMap.get-put c.pending id id c.next_channel,
    GoMap.get-put c.channels c.next_channel c.next_channel [],
    bytes_beq_iff id id,
  )

  read-begin :
      (c : Client) (raw content : Bytes) (id : Bytes)
      → Carries codecs raw id content
      → let (b, a) = begin c id in
        read_message codecs b raw
        ≡ (record b { channels = GoMap.put b.channels a (content ∷ []) }, none)
  read-begin c raw content id d =
      rw (read-Carries (begin c id).0 raw id content d, deliver-begin c id content) refl

  read_unknown :
      (c : Client) (raw content : Bytes) (id : Bytes)
      → Carries codecs raw id content
      → GoMap.get c.pending id ≡ none
      → read_message codecs c raw ≡ (c, none)
  unfolding deliver_stream_data
  read_unknown c raw content id d missing =
      rw (read-Carries c raw id content d) (ground (arith, missing))

module _ (setup : Setup) (local : LocalCall → LocalAnswer) where
  -- The handler with the request in its channel.
  resume_full :
      (b : Client) (os : OpenStream) (a : ℕ) (content : Bytes)
      → resume setup local
          (record b { channels = GoMap.put b.channels a (content ∷ []) })
          os
          a
          received
        ≡ some (
            leave
              (forward setup local
                (record b { channels = GoMap.put (GoMap.put b.channels a (content ∷ [])) a [] })
                os
                content)
              os.stream_id)
  unfolding resume wake
  resume_full b os a content = ground (arith, GoMap.get-put b.channels a a (content ∷ []))

  resume_empty :
      (c : Client) (os : OpenStream)
      → let (b, a) = begin c os.stream_id in resume setup local b os a received ≡ none
  unfolding resume wake begin
  resume_empty c os = ground (arith, GoMap.get-put c.channels c.next_channel c.next_channel [])

  -- The gateway sends a request right behind the frame that opens its stream, and the client starts the
  -- stream's handler as a goroutine. If the handler has begun when the request is read, the request is
  -- forwarded. If it begins later, the request is lost: the handler cannot receive it.
  pub order_decides :
      (c : Client) (raw_open raw_data content : Bytes) (os : OpenStream)
      → Opens setup.codecs raw_open os
      → Carries setup.codecs raw_data os.stream_id content
      → GoMap.get c.pending os.stream_id ≡ none
      → (read_message setup.codecs c raw_open ≡ (c, some os))
        × (let (b, a) = begin c os.stream_id in
            (l : GoMap ℕ (List Bytes)) × (resume setup local
                (read_message setup.codecs b raw_data).0
                os
                a
                received
              ≡ some (
                  leave (forward setup local (record b { channels = l }) os content) os.stream_id)))
        × (let (b, a) = begin (read_message setup.codecs c raw_data).0 os.stream_id in
            resume setup local b os a received ≡ none)
  order_decides c raw_open raw_data content os o d fresh =
      let (b, a) = begin c os.stream_id in
      (
        read-Opens setup.codecs c raw_open os o,
        (
          GoMap.put (GoMap.put b.channels a (content ∷ [])) a [],
          rw (read-begin setup.codecs c raw_data content os.stream_id d)
              (resume_full b os a content),
        ),
        rw (read_unknown setup.codecs c raw_data content os.stream_id d fresh) (resume_empty c os),
      )
