-- ===== src/Gateway/Serves.antt =====
-- The other handlers keep the gateway's state sound.
use go_tunnel.Base.{
  ℕ, Bytes, Bool, some, List, [], ◌∷◌, ◌++◌, arith, ◌≡◌, refl, inl, inr, Option-cases, Bool-cases,
  bytes_eq, nat_eq, ◌==◌, ltb, length, not, ◌&&◌, ◌||◌,
}
use go_tunnel.Base.Int.{ℤ, int_eq}
use go_tunnel.Base.Decimal.{parse_uint32}
use go_tunnel.Base.Result.{Result, ok, err}
use go_tunnel.Protocol.{frame_heartbeat, frame_stream_data, frame_close_stream}
use go_tunnel.Protocol.Frame.{FrameError, decode_frame, decode_control_message}
use go_tunnel.Registry
use go_tunnel.Registry.Invariant.{update_heartbeat-Inv, unregister-Inv}
use go_tunnel.Broker.{Broker, Stream, stream, set_stream}
use go_tunnel.Broker.Streams.{Inv}
use go_tunnel.Broker.Closing.{close_stream-Inv}
use go_tunnel.Server.{Codecs, Server}
use go_tunnel.Server.Messages.{
  heartbeat_loop, handle_heartbeat, get_stream, select_delivery, deliver_at, deliver_stream_data,
  handle_stream_data, handle_close_stream, dispatch, handle_message,
}
use go_tunnel.Admin.{delete_tunnel}
use go_tunnel.Gateway.Sound.{IsSound, set_stream-Inv}

heartbeat-IsSound :
    (clock : ℕ → ℤ) (ids : List Bytes) (n : ℕ) (s : Server)
    → IsSound s
    → IsSound (heartbeat_loop clock ids n s)
unfolding heartbeat_loop
heartbeat-IsSound clock [] n s v = v
heartbeat-IsSound clock (id ∷ ids) n s v =
    heartbeat-IsSound clock ids _
      (record s { registry = (Registry.update_heartbeat s.registry id (clock n)).0 })
      (record {
        registry = update_heartbeat-Inv s.registry id (clock n) v.registry;
        broker = v.broker;
      })

select-Inv :
    (chosen : Bool) (b b' : Broker) (x : ℕ) (st : Stream) (content : Bytes)
    → stream b x ≡ some st
    → Inv b
    → select_delivery chosen b x st content ≡ some b'
    → Inv b'
unfolding select_delivery
select-Inv chosen b b' x st content there v h =
    let filled : Stream = record st { response = st.response ++ content ∷ [] } in
    elim (Bool-cases (ltb (length st.response) 1 && (chosen || not st.done))) [
      | inl sends ↦
          let same : b' ≡ set_stream b x filled = ground arith in
          rw same (set_stream-Inv b x st filled there refl v)
      | inr full ↦ elim (Bool-cases st.done) [
        | inl over ↦ let same : b' ≡ b = ground arith in rw same v
        | inr waits ↦ let k : ⊥ = ground arith in absurd k
      ]
    ]

deliver-Inv :
    (chosen : Bool) (b b' : Broker) (a id : ℕ) (content : Bytes)
    → Inv b
    → deliver_stream_data chosen b a id content ≡ some b'
    → Inv b'
unfolding deliver_stream_data deliver_at
deliver-Inv chosen b b' a id content v h = elim (Option-cases (get_stream b a id)) [
  | inl missing ↦ let same : b' ≡ b = ground arith in rw same v
  | inr (x, found) ↦ elim (Option-cases (stream b x)) [
    | inl gone ↦ let same : b' ≡ b = ground arith in rw same v
    | inr (st, there) ↦ select-Inv chosen b b' x st content there v (ground arith)
  ]
]

module _ (codecs : Codecs) where
  data-IsSound :
      (chosen : Bool) (a : ℕ) (payload : Bytes) (s t : Server)
      → IsSound s
      → handle_stream_data codecs chosen a payload s ≡ some t
      → IsSound t
  unfolding handle_stream_data
  data-IsSound chosen a payload s t v h =
      elim (Option-cases (decode_control_message codecs.stream_data payload)) [
        | inl bad ↦ let same : t ≡ s = ground arith in rw same v
        | inr (sd, good) ↦ elim (Option-cases (parse_uint32 sd.stream_id)) [
          | inl odd ↦ let same : t ≡ s = ground arith in rw same v
          | inr (id, parsed) ↦
              elim (Option-cases (deliver_stream_data chosen s.broker a id sd.content)) [
                | inl waits ↦ let k : ⊥ = ground arith in absurd k
                | inr (b, given) ↦
                    let same : t ≡ record s { broker = b } = ground arith in
                    rw same (record {
                      registry = v.registry;
                      broker = deliver-Inv chosen s.broker b a id sd.content v.broker given;
                    })
              ]
        ]
      ]

  close-IsSound :
      (a : ℕ) (payload : Bytes) (s : Server)
      → IsSound s
      → IsSound (handle_close_stream codecs a payload s)
  unfolding handle_close_stream
  close-IsSound a payload s v =
      elim (Option-cases (decode_control_message codecs.close_stream payload)) [
        | inl bad ↦ rw (bad, handle_close_stream) v
        | inr (cs, good) ↦ elim (Option-cases (parse_uint32 cs.stream_id)) [
          | inl odd ↦ rw (good, handle_close_stream) (rw (odd, handle_close_stream) v)
          | inr (id, parsed) ↦
              rw (good, handle_close_stream)
                (rw (parsed, handle_close_stream)
                  (record {
                    registry = v.registry;
                    broker = close_stream-Inv s.broker a id v.broker;
                  }))
        ]
      ]

  dispatch-IsSound :
      (chosen : Bool) (clock : ℕ → ℤ) (a : ℕ) (ids : List Bytes)
      (frame : Result FrameError (ℕ × Bytes)) (s t : Server)
      → IsSound s
      → dispatch codecs chosen clock a ids frame s ≡ some t
      → IsSound t
  unfolding dispatch handle_heartbeat
  dispatch-IsSound chosen clock a ids (err e) s t v h = let same : t ≡ s = ground arith in rw same v
  dispatch-IsSound chosen clock a ids (ok (kind, payload)) s t v h =
      elim (Bool-cases (kind == frame_heartbeat)) [
        | inl beats ↦
            let same : t ≡ heartbeat_loop clock ids 0 s = ground arith in
            rw same (heartbeat-IsSound clock ids 0 s v)
        | inr other ↦ elim (Bool-cases (kind == frame_stream_data)) [
          | inl carries ↦ data-IsSound chosen a payload s t v (ground arith)
          | inr neither ↦ elim (Bool-cases (kind == frame_close_stream)) [
            | inl closes ↦
                let same : t ≡ handle_close_stream codecs a payload s = ground arith in
                rw same (close-IsSound a payload s v)
            | inr unknown ↦ let same : t ≡ s = ground arith in rw same v
          ]
        ]
      ]

  pub handle_message-IsSound :
      (chosen : Bool) (clock : ℕ → ℤ) (a : ℕ) (ids : List Bytes) (raw : Bytes) (s t : Server)
      → IsSound s
      → handle_message codecs chosen clock a ids raw s ≡ some t
      → IsSound t
  unfolding handle_message
  handle_message-IsSound chosen clock a ids raw s t v h =
      dispatch-IsSound chosen clock a ids (decode_frame raw).0 s t v h

pub delete_tunnel-IsSound : (s : Server) (id : Bytes) → IsSound s → IsSound (delete_tunnel s id).0
unfolding delete_tunnel
delete_tunnel-IsSound s id v =
    let kept = unregister-Inv s.registry id v.registry in
    elim (Option-cases (Registry.unregister s.registry id).1) [
      | inl e ↦ rw (e, delete_tunnel) (record { registry = kept; broker = v.broker })
      | inr (x, e) ↦ rw (e, delete_tunnel) (record { registry = kept; broker = v.broker })
    ]
