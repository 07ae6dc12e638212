-- ===== src/Gateway/Proxies.antt =====
-- The proxy keeps the gateway's state sound.
use go_tunnel.Base.{
  ℕ, ◌+◌, ◌^◌, ◌<◌, Bytes, some, List, [], ◌∷◌, arith, ◌≡◌, refl, sym, ap, ◌∙◌, inl, inr, bytes_eq,
  nat_eq,
}
use go_tunnel.Base.Int.{int_eq}
use go_tunnel.Registry
use go_tunnel.Broker.{Stream, stream, set_stream, open_stream}
use go_tunnel.Broker.Streams.{Inv}
use go_tunnel.Broker.Closing.{close_stream-Inv}
use go_tunnel.Broker.Opening.{open_stream-Inv}
use go_tunnel.Server.{Server}
use go_tunnel.Proxy.{
  Request, Setup, Writes, WriterCall, Woken, response, done, timeout, refuse, give_up, open_request,
  serve_http, wake, take_response, finish_response, write_response, resume,
}
use go_tunnel.Proxy.Stages.{send_open-cases}
use go_tunnel.Proxy.Outcome.{serve_http-cases}
use go_tunnel.Proxy.Answered.{finish_response-broker, resume-cases}
use go_tunnel.Gateway.Sound.{IsSound, set_stream-Inv}

-- The states have the same registry, and the broker's heap stays well formed.
abbrev Keeps : Server → Server → Type 0
Keeps s t = (t.registry ≡ s.registry) × Inv t.broker

Keeps-IsSound : (s t : Server) → IsSound s → Keeps s t → IsSound t
Keeps-IsSound s t v k = record { registry = rw k.0 v.registry; broker = k.1 }

module _ (setup : Setup) where
  open_request-Keeps :
      (s : Server) (r : Request) (w : Writes) (a : ℕ) (tunnel : Registry.Tunnel)
      → s.broker.next_stream_id + 1 < 2 ^ 32
      → Inv s.broker
      → Keeps s (open_request setup s r w a tunnel).0
  unfolding open_request give_up refuse
  open_request-Keeps s r w a tunnel room v =
      let (b1, x) = open_stream s.broker a tunnel.id in
      let opened = open_stream-Inv s.broker a tunnel.id room v in
      elim (send_open-cases setup r w a x b1.next_stream_id (record s { broker = b1 }) tunnel.id) [
        | inl (l, message, e) ↦ rw e (refl, close_stream-Inv b1 a b1.next_stream_id opened)
        | inr (f1, _, (d, f2, _, _, e)) ↦ rw e (refl, opened)
      ]

  pub serve_http-IsSound :
      (s : Server) (r : Request) (w : Writes)
      → s.broker.next_stream_id + 1 < 2 ^ 32
      → IsSound s
      → IsSound (serve_http setup s r w).0
  serve_http-IsSound s r w room v =
      Keeps-IsSound s (serve_http setup s r w).0 v (elim (serve_http-cases setup s r w) [
        | inl (message, e) ↦ rw e (refl, v.broker)
        | inr (inl (nil, e)) ↦ rw e (refl, v.broker)
        | inr (inr (tunnel, a, _, _, e)) ↦ rw e (open_request-Keeps s r w a tunnel room v.broker)
      ])

  finish_response-registry :
      (s : Server) (r : Request) (d : Bytes) → (finish_response setup s r d).0.registry ≡ s.registry
  unfolding finish_response write_response refuse
  finish_response-registry s r d = ground arith

  wake-Keeps :
      (s t : Server) (r : Request) (woken : Woken) (x : ℕ) (st : Stream) (calls : List WriterCall)
      → stream s.broker x ≡ some st
      → Inv s.broker
      → wake setup s r woken x st ≡ some (t, calls)
      → Keeps s t
  unfolding wake take_response refuse
  wake-Keeps s t r done x st calls hx v h =
      let same : t.broker ≡ s.broker = ground arith in (ground arith, rw same v)
  wake-Keeps s t r timeout x st calls hx v h =
      let same : t.broker ≡ s.broker = ground arith in (ground arith, rw same v)
  wake-Keeps s t r response x st calls hx v h = received st.response refl
    where
      received : (l : List Bytes) → st.response ≡ l → Keeps s t
      received [] e = let k : ⊥ = ground arith in absurd k
      received (d ∷ later) e =
          let st' : Stream = record st { response = later } in
          let taken : Server = record s { broker = set_stream s.broker x st' } in
          let same : finish_response setup taken r d ≡ (t, calls) = ground arith in
          let answered = ap (λ (o : Server × List WriterCall). o.0) (sym same) in
          (
            ap (λ (u : Server). u.registry) answered ∙ finish_response-registry taken r d,
            rw (ap (λ (u : Server). u.broker) answered ∙ finish_response-broker setup taken r d)
                (set_stream-Inv s.broker x st st' hx refl v),
          )

  pub resume-IsSound :
      (s t : Server) (r : Request) (woken : Woken) (a x id : ℕ) (calls : List WriterCall)
      → IsSound s
      → resume setup s r woken a x id ≡ some (t, calls)
      → IsSound t
  resume-IsSound s t r woken a x id calls v h =
      let (st, u, hx, woke, same) = resume-cases setup s t r woken a x id calls h in
      let (kept, w) = wake-Keeps s u r woken x st calls hx v.broker woke in
      rw same (record { registry = rw kept v.registry; broker = close_stream-Inv u.broker a id w })
