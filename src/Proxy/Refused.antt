-- ===== src/Proxy/Refused.antt =====
-- A request that is answered before the wait.
use go_tunnel.Base.{
  ℕ, ◌+◌, ◌^◌, ◌<◌, Bytes, bytes, some, List, [], ◌∷◌, arith, ◌≡◌, ◌≢◌, refl, sym, ap, ◌∙◌, inl,
  inr, Option-cases, nat_eq, bytes_eq,
}
use go_tunnel.Base.Decimal.{format_uint}
use go_tunnel.GoMap
use go_tunnel.Registry
use go_tunnel.Registry.Lookup.{get_by_subdomain_lem}
use go_tunnel.Broker
use go_tunnel.Broker.{
  Broker, ClientConn, conn, open_stream, close_stream, get_connection_by_subdomain,
}
use go_tunnel.Metrics.{inc_requests}
use go_tunnel.Server.{Server, count}
use go_tunnel.Proxy.{
  Request, Setup, Writes, Stage, answered, panicked, WriterCall, error, refuse, give_up,
  open_request, serve_http,
}
use go_tunnel.Proxy.Stages.{send_open-cases}
use go_tunnel.Proxy.Outcome.{SameStreams, SameStreams-close-open, serve_http-cases, named}

-- The connection of a route exists in a well-formed broker.
pub routed_conn :
    (b : Broker) (sub : Bytes) (a : ℕ)
    → Broker.Streams.Inv b
    → get_connection_by_subdomain b sub ≡ some a
    → (c : ClientConn) × (conn b a ≡ some c)
unfolding get_connection_by_subdomain
routed_conn b sub a v h = elim (Option-cases (GoMap.get b.subdomain_to_conn sub)) [
  | inl none_there ↦ let x : ⊥ = ground arith in absurd x
  | inr (cid, e) ↦ let (c, hc, _) = v.registered cid a (ground arith) in (c, hc)
]

-- The gateway after a request that was refused with a 502: one more request is counted, and what is
-- registered, routed and open is as before.
pub record Unharmed (s s' : Server) (method : Bytes) (calls : List WriterCall) : Type 0 where
  pub message : Bytes
  pub told : calls ≡ error message 502 ∷ []
  pub counted : s'.metrics ≡ inc_requests (bytes "502") method ∷ s.metrics
  pub registry : s'.registry ≡ s.registry
  pub auth : s'.auth ≡ s.auth
  pub streams : SameStreams s.broker s'.broker

SameStreams-refl : (b : Broker) → SameStreams b b
SameStreams-refl b a c h = (c, h, λ id. refl)

module _ (setup : Setup) where
  open_request-ne-panicked :
      (s : Server) (r : Request) (w : Writes) (a : ℕ) (tunnel : Registry.Tunnel)
      → (open_request setup s r w a tunnel).1 ≢ panicked
  unfolding open_request give_up refuse
  open_request-ne-panicked s r w a tunnel g =
      let (b1, x) = open_stream s.broker a tunnel.id in
      elim (send_open-cases setup r w a x b1.next_stream_id (record s { broker = b1 }) tunnel.id) [
        | inl (l, message, e) ↦ let k = rw e at g in cc
        | inr (f1, _, (d, f2, _, _, e)) ↦ let k = rw e at g in cc
      ]

  -- In a well-formed registry the handler never meets a nil tunnel.
  pub serve_http-ne-panicked :
      (s : Server) (r : Request) (w : Writes)
      → Registry.Invariant.Inv s.registry
      → (serve_http setup s r w).1 ≢ panicked
  serve_http-ne-panicked s r w v h = elim (serve_http-cases setup s r w) [
    | inl (message, e) ↦ cc
    | inr (inl (nil, _)) ↦ elim (get_by_subdomain_lem s.registry (named setup r) v) [
      | inl missing ↦ cc
      | inr (t, found, _, _) ↦ cc
    ]
    | inr (inr (tunnel, a, _, _, e)) ↦
        open_request-ne-panicked s r w a tunnel (ap (λ (o : Server × Stage). o.1) (sym e) ∙ h)
  ]

  Unharmed-give_up :
      (s : Server) (r : Request) (w : Writes) (a : ℕ) (tunnel_id message : Bytes) (c : ClientConn)
      (l : List (ℕ × Bytes)) (s' : Server) (calls : List WriterCall)
      → Broker.Streams.Inv s.broker
      → s.broker.next_stream_id + 1 < 2 ^ 32
      → conn s.broker a ≡ some c
      → let b1 = (open_stream s.broker a tunnel_id).0 in
        (s', answered calls)
          ≡ give_up (record s { broker = b1; sent = l }) r a b1.next_stream_id message
        → Unharmed s s' r.method calls
  unfolding give_up refuse format_uint
  Unharmed-give_up s r w a tunnel_id message c l s' calls v room hc e =
      let b1 = (open_stream s.broker a tunnel_id).0 in
      let b2 = close_stream b1 a b1.next_stream_id in
      let same_state : s' ≡ record s {
        broker = b2;
        sent = l;
        metrics = inc_requests (bytes "502") r.method ∷ s.metrics;
      } =
        ap (λ (o : Server × Stage). o.0) e in
      let same_calls : answered calls ≡ answered (error message 502 ∷ []) =
        ap (λ (o : Server × Stage). o.1) e in
      rw same_state (record {
        message = message;
        told = cc;
        counted = refl;
        registry = refl;
        auth = refl;
        streams = SameStreams-close-open s.broker a tunnel_id c v room hc;
      })

  -- In a well-formed broker, while the counter of stream ids has not wrapped: a request that is
  -- answered without the client is answered with one 502 and counted once, and every connection has
  -- the streams that it had; the registry and the tokens are as before.
  pub serve_http-answered :
      (s s' : Server) (r : Request) (w : Writes) (calls : List WriterCall)
      → Broker.Streams.Inv s.broker
      → s.broker.next_stream_id + 1 < 2 ^ 32
      → serve_http setup s r w ≡ (s', answered calls)
      → Unharmed s s' r.method calls
  unfolding open_request
  serve_http-answered s s' r w calls v room h = elim (serve_http-cases setup s r w) [
    | inl (message, e) ↦ early message (sym h ∙ e)
    | inr (inl (nil, e)) ↦ cc
    | inr (inr (tunnel, a, _, route, e)) ↦
        let (c, hc) = routed_conn s.broker (named setup r) a v route in
        let (b1, x) = open_stream s.broker a tunnel.id in
        elim (send_open-cases setup r w a x b1.next_stream_id (record s { broker = b1 })
          tunnel.id) [
            | inl (l, message, f) ↦
                Unharmed-give_up s r w a tunnel.id message c l s' calls v room hc (sym h ∙ e ∙ f)
            | inr (f1, _, (d, f2, _, _, f)) ↦ cc (sym h ∙ e ∙ f)
          ]
  ]
    where
      early :
          (message : Bytes)
          → ◌≡◌ {A = Server × Stage}
              (s', answered calls)
              (count s (inc_requests (bytes "502") r.method), answered (error message 502 ∷ []))
          → Unharmed s s' r.method calls
      early message e =
          let same_state : s' ≡ count s (inc_requests (bytes "502") r.method) =
            ap (λ (o : Server × Stage). o.0) e in
          let same_calls : answered calls ≡ answered (error message 502 ∷ []) =
            ap (λ (o : Server × Stage). o.1) e in
          rw same_state (record {
            message = message;
            told = cc;
            counted = refl;
            registry = refl;
            auth = refl;
            streams = SameStreams-refl s.broker;
          })
