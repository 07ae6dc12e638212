-- ===== src/Proxy/Stages.antt =====
-- How the first stage of a request ends once its stream is open.
use go_tunnel.Base.{
  ℕ, Bytes, bytes, some, List, ◌≡◌, refl, sym, subst, ◌⊎◌, inl, inr, Option-cases, Bool-cases,
  length,
}
use go_tunnel.Protocol.{frame_open_stream, frame_stream_data}
use go_tunnel.Protocol.Frame.{encode_control_message}
use go_tunnel.Base.Decimal.{format_uint}
use go_tunnel.Metrics.{add_bytes_sent}
use go_tunnel.Server.{Server, count, write_message}
use go_tunnel.Proxy.{
  Request, Setup, Writes, Stage, waiting, give_up, socket, envelope, open_message, send_data,
  send_request, send_open,
}

-- The request's envelope is marshalled to the bytes.
abbrev pub IsEnvelope : Setup → Request → Bytes → Type 0
IsEnvelope setup r data_bytes =
    (body : Bytes) × (r.body ≡ some body)
    × (setup.request.marshal (envelope r body) ≡ some data_bytes)

module _ (setup : Setup) (r : Request) (w : Writes) (a x id : ℕ) where
  -- The request was given up, whatever had been sent.
  abbrev pub GivenUp : Server → Server × Stage → Type 0
  GivenUp s outcome =
      (l : List (ℕ × Bytes)) × (message : Bytes) × (outcome
        ≡ give_up (record s { sent = l }) r a id message)

  -- The data frame was sent, and the handler waits.
  abbrev pub DataSent : Server → Server × Stage → Type 0
  DataSent s outcome =
      (data_bytes : Bytes) × (frame : Bytes) × (IsEnvelope setup r data_bytes)
      × (encode_control_message setup.codecs.stream_data frame_stream_data
            (record { stream_id = format_uint id; content = data_bytes })
          ≡ some frame)
      × (outcome ≡ (
        count (write_message s (socket s.broker a) (some frame))
            (add_bytes_sent (length data_bytes)),
        waiting a x id,
      ))

  send_data-cases :
      (s : Server) (data_bytes : Bytes)
      → IsEnvelope setup r data_bytes
      → GivenUp s (send_data setup s r w a x id data_bytes)
        ⊎ DataSent s (send_data setup s r w a x id data_bytes)
  unfolding send_data
  send_data-cases s data_bytes enveloped =
      elim (Option-cases (
        encode_control_message setup.codecs.stream_data frame_stream_data
          (record { stream_id = format_uint id; content = data_bytes }))) [
            | inl failed ↦ inl (s.sent, bytes "502 Bad Gateway", rw (failed, send_data) refl)
            | inr (frame, made) ↦ elim (Bool-cases w.content) [
              | inl sent ↦
                  inr (data_bytes, frame, enveloped, made, rw (made, send_data) (rw sent refl))
              | inr lost ↦
                  inl (s.sent, bytes "502 Bad Gateway", rw (made, send_data) (rw lost refl))
            ]
          ]

  send_request-cases :
      (s : Server)
      → GivenUp s (send_request setup s r w a x id) ⊎ DataSent s (send_request setup s r w a x id)
  unfolding send_request
  send_request-cases s = elim (Option-cases r.body) [
    | inl unread ↦ inl (s.sent, bytes "502 Bad Gateway", rw (unread, send_request) refl)
    | inr (body, read) ↦ elim (Option-cases (setup.request.marshal (envelope r body))) [
      | inl failed ↦ inl (
        s.sent,
        bytes "502 Bad Gateway",
        rw (read, send_request) (rw (failed, send_request) refl),
      )
      | inr (data_bytes, made) ↦
          let same : send_request setup s r w a x id ≡ send_data setup s r w a x id data_bytes =
            rw (read, send_request) (rw (made, send_request) refl) in
          subst (λ o. GivenUp s o ⊎ DataSent s o) (sym same)
            (send_data-cases s data_bytes (body, read, made))
    ]
  ]

  -- Both frames were sent.
  abbrev pub BothSent : Server → Bytes → Server × Stage → Type 0
  BothSent s tunnel_id outcome =
      (frame : Bytes) × (encode_control_message setup.codecs.open_stream frame_open_stream
          (open_message r id tunnel_id)
        ≡ some frame)
      × DataSent (write_message s (socket s.broker a) (some frame)) outcome

  pub send_open-cases :
      (s : Server) (tunnel_id : Bytes)
      → GivenUp s (send_open setup s r w a x id tunnel_id)
        ⊎ BothSent s tunnel_id (send_open setup s r w a x id tunnel_id)
  unfolding send_open
  send_open-cases s tunnel_id =
      elim (Option-cases (
        encode_control_message setup.codecs.open_stream frame_open_stream
          (open_message r id tunnel_id))) [
            | inl failed ↦ inl (s.sent, bytes "502 Bad Gateway", rw (failed, send_open) refl)
            | inr (frame, made) ↦ elim (Bool-cases w.opening) [
              | inr lost ↦
                  inl (s.sent, bytes "502 Bad Gateway", rw (made, send_open) (rw lost refl))
              | inl sent ↦
                  let opened = write_message s (socket s.broker a) (some frame) in
                  let same : send_open setup s r w a x id tunnel_id
                      ≡ send_request setup opened r w a x id =
                    rw (made, send_open) (rw sent refl) in
                  subst (λ o. GivenUp s o ⊎ BothSent s tunnel_id o) (sym same)
                    (elim (send_request-cases opened) [
                      | inl given_up ↦ inl given_up
                      | inr both ↦ inr (frame, made, both)
                    ])
            ]
          ]
