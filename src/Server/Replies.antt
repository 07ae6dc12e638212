-- ===== src/Server/Replies.antt =====
-- What the gateway replies to a register message.
use go_tunnel.Base.{
  ℕ, ◌+◌, Bytes, bytes, true, false, Option, none, some, List, [], ◌∷◌, ◌++◌, ◌≡◌, refl, ap, ◌∙◌,
  inl, inr, Option-cases, Bool-cases, nat_eq, bytes_eq, ◌==◌,
}
use go_tunnel.Base.Int.{ℤ}
use go_tunnel.Base.Result.{Result, ok, err, Result-cases}
use go_tunnel.Protocol.{
  Register, TunnelConfig, frame_register, frame_control_response, code_ok, code_unauthorized,
  code_invalid_request,
}
use go_tunnel.Protocol.Frame.{
  FrameError, decode_frame, decode_control_message, encode_control_message,
}
use go_tunnel.Broker
use go_tunnel.Metrics.{inc_token_auth_failures}
use go_tunnel.Registry
use go_tunnel.Registry.{RegistryError}
use go_tunnel.Auth.{Mac, Token, validate_token}
use go_tunnel.Server.{
  Codecs, Server, registry_error_text, auth_error_text, count, send_control_response,
  cleanup_connection,
}
use go_tunnel.Server.Connect.{
  Handshake, closed, serving, new_tunnel, added, register_tunnels, finish_registration, accept,
  authenticate, read_register, expect_register, handle_connect,
}
use go_tunnel.Server.Sent.{
  is_plain, cleanup_connection-sent, registry_error_text-is_plain, validated-is_plain,
}

-- What was sent is the control response, to that socket, after what had been sent before.
abbrev pub Says : Codecs → ℕ → Server → ℕ → Bytes → Server → Type 0
Says codecs ws s code message s' = s'.sent ≡ (send_control_response codecs s ws code message).sent

-- A handshake that fails is told so.
abbrev pub Refuses : Codecs → ℕ → Server → Server → Type 0
Refuses codecs ws s s' =
    (code : ℕ) × (message : Bytes) × ((code == code_ok) ≡ false)
    × (is_plain message ≡ true)
    × Says codecs ws s code message s'

abbrev pub Accepts : Codecs → ℕ → Server → Server × Handshake → Type 0
Accepts codecs ws s (s', closed) = Refuses codecs ws s s'
Accepts codecs ws s (s', serving a cid ids) = Says codecs ws s code_ok (bytes "registered") s'

module _ (codecs : Codecs) (ws : ℕ) where
  send-sent :
      (s t : Server) (code : ℕ) (message : Bytes)
      → t.sent ≡ s.sent
      → Says codecs ws s code message (send_control_response codecs t ws code message)
  unfolding send_control_response
  send-sent s t code message same =
      elim (Option-cases (
        encode_control_message codecs.control_response frame_control_response
          (record { code = code; message = message }))) [
            | inl failed ↦ rw failed same
            | inr (frame, made) ↦ rw made (ap (λ l. (ws, frame) ∷ l) same)
          ]

  refusal :
      (s t : Server) (code : ℕ) (message : Bytes)
      → (code == code_ok) ≡ false
      → is_plain message ≡ true
      → t.sent ≡ (send_control_response codecs s ws code message).sent
      → Refuses codecs ws s t
  refusal s t code message other ascii said = (code, message, other, ascii, said)

  refused_now :
      (s : Server) (message : Bytes)
      → is_plain message ≡ true
      → Refuses codecs ws s (send_control_response codecs s ws code_invalid_request message)
  refused_now s message ascii =
      refusal s (send_control_response codecs s ws code_invalid_request message)
        code_invalid_request message refl ascii refl

  abbrev LoopSays : Server → Server × Option (List Bytes) → Type 0
  LoopSays s (s', none) = Refuses codecs ws s s'
  LoopSays s (s', some ids) = s'.sent ≡ s.sent

  loop-says :
      (clock : ℕ → ℤ) (cid user : Bytes) (tcs : List TunnelConfig) (ids : List Bytes) (n : ℕ)
      (s0 s : Server)
      → s.sent ≡ s0.sent
      → LoopSays s0 (register_tunnels codecs clock ws cid user tcs ids n s)
  unfolding register_tunnels added
  loop-says clock cid user [] ids n s0 s same = same
  loop-says clock cid user (tc ∷ rest) ids n s0 s same =
      let tunnel = new_tunnel cid user tc (clock n) (clock (n + 1)) in
      let registry = (Registry.register s.registry tunnel).0 in
      elim (Option-cases (Registry.register s.registry tunnel).1) [
        | inl e ↦
            rw (e, register_tunnels)
              (loop-says clock cid user rest (ids ++ tunnel.id ∷ []) (n + 2) s0
                (added s registry cid tc.subdomain) same)
        | inr (x, e) ↦
            let text = bytes "register tunnel failed: " ++ registry_error_text x in
            let told = send_control_response codecs s ws code_invalid_request text in
            rw (e, register_tunnels)
              (refusal s0 (cleanup_connection told cid ids) code_invalid_request text refl
                (registry_error_text-is_plain x)
                (cleanup_connection-sent told cid ids
                  ∙ send-sent s0 s code_invalid_request text same))
      ]

  finish-says :
      (clock : ℕ → ℤ) (a : ℕ) (cid : Bytes) (s : Server) (r : Server × Option (List Bytes))
      → LoopSays s r
      → Accepts codecs ws s (finish_registration codecs clock ws a cid r)
  unfolding finish_registration
  finish-says clock a cid s (s', none) said = said
  finish-says clock a cid s (s', some ids) same =
      send-sent s (record s' { broker = Broker.set_tunnels s'.broker a ids }) code_ok
        (bytes "registered") same

  accept-says :
      (clock : ℕ → ℤ) (s : Server) (reg : Register) (token : Token)
      → Accepts codecs ws s (accept codecs clock s ws reg token)
  unfolding accept
  accept-says clock s reg token =
      finish-says clock _ _ s _ (loop-says clock _ token.user_id reg.tunnels [] 2 s _ refl)

  authenticate-says :
      (mac : Mac) (clock : ℕ → ℤ) (s : Server) (reg : Register)
      → Accepts codecs ws s (authenticate codecs clock mac s ws reg)
  unfolding authenticate
  authenticate-says mac clock s reg =
      elim (Result-cases (validate_token mac s.auth reg.token (clock 0))) [
        | inl (token, e) ↦ rw (e, authenticate) (accept-says clock s reg token)
        | inr (x, e) ↦
            let text = bytes "authentication failed: " ++ auth_error_text x in
            rw (e, authenticate)
              (refusal s
                (send_control_response codecs (count s inc_token_auth_failures) ws code_unauthorized
                  text)
                code_unauthorized text refl (validated-is_plain mac s.auth reg.token (clock 0) x e)
                (send-sent s (count s inc_token_auth_failures) code_unauthorized text refl))
      ]

  read_register-says :
      (mac : Mac) (clock : ℕ → ℤ) (s : Server) (payload : Bytes)
      → Accepts codecs ws s (read_register codecs clock mac s ws payload)
  unfolding read_register
  read_register-says mac clock s payload =
      elim (Option-cases (decode_control_message codecs.register payload)) [
        | inl bad ↦ rw (bad, read_register) (refused_now s (bytes "invalid register payload") refl)
        | inr (reg, good) ↦ rw (good, read_register) (authenticate-says mac clock s reg)
      ]

  expect_register-says :
      (mac : Mac) (clock : ℕ → ℤ) (s : Server) (frame : Result FrameError (ℕ × Bytes))
      → Accepts codecs ws s (expect_register codecs clock mac s ws frame)
  unfolding expect_register
  expect_register-says mac clock s (err e) = refused_now s (bytes "expected register frame") refl
  expect_register-says mac clock s (ok (t, payload)) = elim (Bool-cases (t == frame_register)) [
    | inl registers ↦ rw registers (read_register-says mac clock s payload)
    | inr other ↦ rw other (refused_now s (bytes "expected register frame") refl)
  ]

  -- To the first message of a connection, the gateway replies once: that it is registered, if its
  -- read loop starts, and otherwise with another code and a short text in plain ASCII.
  pub handle_connect-says :
      (mac : Mac) (clock : ℕ → ℤ) (s : Server) (raw : Bytes)
      → Accepts codecs ws s (handle_connect codecs clock mac s ws (some raw))
  unfolding handle_connect
  handle_connect-says mac clock s raw = expect_register-says mac clock s (decode_frame raw).0
