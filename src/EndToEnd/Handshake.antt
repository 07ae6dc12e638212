-- ===== src/EndToEnd/Handshake.antt =====
-- internal/client/client.go, Connect, against internal/server/server.go, handleConnect: the client and
-- the gateway agree on whether the client is registered.
use go_tunnel.Base.{
  ℕ, Bytes, bytes, true, none, some, ◌∷◌, ◌≡◌, refl, ◌∙◌, arith, nat_eq, bytes_eq, ◌==◌,
  if◌then◌else◌, subst, ap,
}
use go_tunnel.Base.Int.{ℤ}
use go_tunnel.Protocol.{ControlResponse, frame_control_response, code_ok}
use go_tunnel.Protocol.Frame.{Json, encode_frame}
use go_tunnel.Auth.{Mac}
use go_tunnel.Config.Types.{ClientSettings}
use go_tunnel.Server.{Codecs, Server, send_control_response}
use go_tunnel.Server.Connect.{Handshake, closed, serving, handle_connect}
use go_tunnel.Server.Sent.{is_plain}
use go_tunnel.Server.Replies.{Accepts, handle_connect-says}
use go_tunnel.Client.Connect.{
  Link, refused, connect, register, register_frame, read_first, expect_control, read_control,
  prepare_tls,
}
use go_tunnel.EndToEnd.{Survives, Survives-frame, Survives-decoded, Survives-encoded}

-- JSON gives back a control response whose text is short and plain ASCII.
abbrev pub KeepsPlain : Json ControlResponse → Type 0
KeepsPlain json =
    (code : ℕ) (message : Bytes)
    → is_plain message ≡ true
    → Survives json (record { code = code; message = message })

-- What the client makes of the reply.
abbrev pub Concludes : Codecs → Link → ClientSettings → Handshake → Type 0
Concludes codecs link settings closed =
    (message : Bytes) × (code : ℕ) × (connect codecs link settings ≡ some (refused message code))
Concludes codecs link settings (serving a cid ids) = connect codecs link settings ≡ none

module _ (codecs : Codecs) where
  reply-read :
      (code : ℕ) (message : Bytes)
      (v : Survives codecs.control_response (record { code = code; message = message }))
      → read_first codecs (some (encode_frame frame_control_response v.payload))
        ≡ (if code == code_ok then none else some (refused message code))
  unfolding read_first expect_control read_control
  reply-read code message v =
      let m : ControlResponse = record { code = code; message = message } in
      let json = codecs.control_response in
      let framed =
        Survives-frame json m frame_control_response (encode_frame frame_control_response v.payload)
          v (Survives-encoded json m frame_control_response v) in
      rw (framed, expect_control)
        (rw (Survives-decoded json m frame_control_response v, read_control) refl)

  pub connect-first :
      (link : Link) (settings : ClientSettings) (frame : Bytes)
      → register_frame codecs link settings ≡ some frame
      → prepare_tls link settings.tls ≡ none
      → link.dials ≡ true
      → link.writes ≡ true
      → connect codecs link settings ≡ read_first codecs link.first
  unfolding connect register
  connect-first link settings frame made prepared dials writes =
      rw (made, prepared, connect) (rw dials (rw writes refl))

  -- The reply in the record of what was sent.
  said-raw :
      (ws : ℕ) (s s' : Server) (code : ℕ) (message raw : Bytes)
      (v : Survives codecs.control_response (record { code = code; message = message }))
      → s'.sent ≡ (send_control_response codecs s ws code message).sent
      → s'.sent ≡ (ws, raw) ∷ s.sent
      → raw ≡ encode_frame frame_control_response v.payload
  unfolding send_control_response
  said-raw ws s s' code message raw v said sent =
      let made =
        Survives-encoded codecs.control_response (record { code = code; message = message })
          frame_control_response v in
      ground (arith, made)

  concluded :
      (link : Link) (settings : ClientSettings) (ws : ℕ) (raw : Bytes) (s s' : Server)
      (hs : Handshake)
      → KeepsPlain codecs.control_response
      → connect codecs link settings ≡ read_first codecs (some raw)
      → s'.sent ≡ (ws, raw) ∷ s.sent
      → Accepts codecs ws s (s', hs)
      → Concludes codecs link settings hs
  concluded link settings ws raw s s' closed keeps same sent (code, message, other, ascii, said) =
      let v = keeps code message ascii in
      (
        message,
        code,
        same
            ∙ ap (λ m. read_first codecs (some m)) (said-raw ws s s' code message raw v said sent)
            ∙ reply-read code message v
            ∙ rw other refl,
      )
  concluded link settings ws raw s s' (serving a cid ids) keeps same sent said =
      let v = keeps code_ok (bytes "registered") refl in
      same
      ∙ ap (λ m. read_first codecs (some m))
          (said-raw ws s s' code_ok (bytes "registered") raw v said sent)
      ∙ reply-read code_ok (bytes "registered") v

  -- If the client's register frame reaches the gateway and the client reads the gateway's reply to it,
  -- then the two agree: Connect succeeds if the gateway serves the connection, and fails with the
  -- gateway's refusal if it does not.
  pub handshake_agrees :
      (mac : Mac) (clock : ℕ → ℤ) (link : Link) (settings : ClientSettings) (ws : ℕ)
      (frame raw : Bytes) (s s' : Server) (hs : Handshake)
      → KeepsPlain codecs.control_response
      → prepare_tls link settings.tls ≡ none
      → link.dials ≡ true
      → register_frame codecs link settings ≡ some frame
      → link.writes ≡ true
      → handle_connect codecs clock mac s ws (some frame) ≡ (s', hs)
      → s'.sent ≡ (ws, raw) ∷ s.sent
      → link.first ≡ some raw
      → Concludes codecs link settings hs
  handshake_agrees mac clock link settings ws frame raw s s' hs keeps prepared dials made writes
        handled sent read =
      let same =
        connect-first link settings frame made prepared dials writes
        ∙ ap (read_first codecs) read in
      concluded link settings ws raw s s' hs keeps same sent (
        subst (λ r. Accepts codecs ws s r) handled
          (handle_connect-says codecs ws mac clock s frame))
