-- ===== src/Client/Ended.antt =====
-- How a handler of the client ends.
use go_tunnel.Base.{
  Bytes, Option, none, some, List, ◌∷◌, ◌≡◌, refl, sym, subst, ◌∙◌, ◌⊎◌, inl, inr, Option-cases,
  Bool-cases, bytes_eq, nat_eq, ◌==◌,
}
use go_tunnel.Base.Int.{pos, int_eq}
use go_tunnel.Protocol.{OpenStream, frame_stream_data, frame_close_stream}
use go_tunnel.Protocol.Frame.{encode_control_message}
use go_tunnel.Server.{Codecs}
use go_tunnel.Client.{resolve_port}
use go_tunnel.Client.Session.{Client, write_message, send_stream_data, send_close_stream}
use go_tunnel.Client.Handler.{
  Setup, HttpResponse, LocalCall, LocalAnswer, not_created, unreachable, unread, answered,
  send_response, send_error_response, answer, forward, local_call,
}

-- The client after it has sent such a response for the stream, or nothing at all.
abbrev pub reply : Codecs → Client → Bytes → Bytes → Client
reply codecs c id content = send_close_stream codecs (send_stream_data codecs c id content) id

abbrev pub RepliedOrSilent : Codecs → Client → Bytes → Client → Type 0
RepliedOrSilent codecs c id c' = (c' ≡ c) ⊎ ((content : Bytes) × (c' ≡ reply codecs c id content))

abbrev pub OnlySends : Client → Client → Type 0
OnlySends c c' = (l : List Bytes) × (c' ≡ record c { sent = l })

OnlySends-write_message : (c : Client) (o : Option Bytes) → OnlySends c (write_message c o)
OnlySends-write_message c none = (c.sent, refl)
OnlySends-write_message c (some frame) = (frame ∷ c.sent, refl)

module _ (setup : Setup) where
  pub OnlySends-reply :
      (c : Client) (id content : Bytes) → OnlySends c (reply setup.codecs c id content)
  unfolding send_stream_data send_close_stream
  OnlySends-reply c id content =
      let (l, e) = OnlySends-write_message c (
        encode_control_message setup.codecs.stream_data frame_stream_data
          (record { stream_id = id; content = content })) in
      let (k, f) =
        OnlySends-write_message (record c { sent = l })
          (encode_control_message setup.codecs.close_stream frame_close_stream
            (record { stream_id = id })) in
      (k, rw e f)

  send_response-cases :
      (c : Client) (id : Bytes) (resp : HttpResponse)
      → RepliedOrSilent setup.codecs c id (send_response setup c id resp)
  unfolding send_response
  send_response-cases c id resp = elim (Option-cases (setup.response.marshal resp)) [
    | inl failed ↦ inl (rw (failed, send_response) refl)
    | inr (content, made) ↦ inr (content, rw (made, send_response) refl)
  ]

  answer-cases :
      (c : Client) (id : Bytes) (a : LocalAnswer)
      → RepliedOrSilent setup.codecs c id (answer setup c id a)
  unfolding answer send_error_response
  answer-cases c id not_created = inl refl
  answer-cases c id unreachable = send_response-cases c id _
  answer-cases c id unread = inl refl
  answer-cases c id (answered status header body) = send_response-cases c id _

  module _ (local : LocalCall → LocalAnswer) where
    pub forward-cases :
        (c : Client) (os : OpenStream) (m : Bytes)
        → RepliedOrSilent setup.codecs c os.stream_id (forward setup local c os m)
    unfolding forward
    forward-cases c os m = elim (Option-cases (setup.request.unmarshal m)) [
      | inl failed ↦ inl (rw (failed, forward) refl)
      | inr (req, made) ↦
          let port = resolve_port c.settings.tunnels os.target_tunnel in
          elim (Bool-cases (port == pos 0)) [
            | inl nowhere ↦ inl (rw (made, forward) (rw nowhere refl))
            | inr there ↦
                let same : forward setup local c os m
                    ≡ answer setup c os.stream_id (local (local_call c.settings port req)) =
                  rw (made, forward) (rw there refl) in
                subst (λ o. RepliedOrSilent setup.codecs c os.stream_id o) (sym same)
                  (answer-cases c os.stream_id (local (local_call c.settings port req)))
          ]
    ]

    pub OnlySends-forward :
        (c : Client) (os : OpenStream) (m : Bytes) → OnlySends c (forward setup local c os m)
    OnlySends-forward c os m = elim (forward-cases c os m) [
      | inl silent ↦ (c.sent, silent)
      | inr (content, replied) ↦
          let (l, e) = OnlySends-reply c os.stream_id content in (l, replied ∙ e)
    ]
