-- ===== src/Proxy/Answered.antt =====
-- The second stage of a request: the stream is closed whatever happens, and what the client sends is
-- what the user is answered.
use go_tunnel.Base.{
  ◌⊎◌, Bool-cases, ◌==◌, ℕ, Bytes, true, none, some, List, [], ◌∷◌, arith, ◌≡◌, refl, sym, ap, ◌∙◌,
  inl, inr, nat_eq, bytes_eq, Option-cases,
}
use go_tunnel.Base.Int.{int_eq}
use go_tunnel.GoMap
use go_tunnel.Broker.{Broker, Stream, ClientConn, conn, stream, set_stream, close_stream}
use go_tunnel.Broker.Streams.{close_stream_lem}
use go_tunnel.Server.{Server}
use go_tunnel.Server.Messages.{get_stream}
use go_tunnel.Proxy.{
  Request, Setup, WriterCall, Woken, response, done, timeout, refuse, wake, resume, take_response,
  finish_response, write_response,
}

-- The broker after the select, before the stream is closed: no connection has changed, and the stream
-- is still there, its Done channel as it was.
abbrev SameConns : Broker → Broker → ℕ → Stream → Type 0
SameConns b b' x old =
    (b'.heap.conn_at ≡ b.heap.conn_at)
    × ((st : Stream) × (stream b' x ≡ some st) × (st.done ≡ old.done))

-- The Done channel of the stream is closed.
abbrev pub IsShut : Broker → ℕ → Type 0
IsShut b x = (st : Stream) × (stream b x ≡ some st) × (st.done ≡ true)

close_stream-get_stream : (b : Broker) (a id : ℕ) → get_stream (close_stream b a id) a id ≡ none
unfolding get_stream close_stream
close_stream-get_stream b a id = elim (Option-cases (conn b a)) [
  | inl gone ↦ ground arith
  | inr (c, hc) ↦ elim (Option-cases (GoMap.get c.streams id)) [
    | inl missing ↦ ground arith
    | inr (x, hs) ↦
        let (without, _, _, _) = close_stream_lem b a id x c hc hs in
        rw (without, get_stream) (ground (arith, GoMap.get-delete c.streams id id))
  ]
]

close_stream-IsShut : (b : Broker) (a id x : ℕ) → IsShut b x → IsShut (close_stream b a id) x
unfolding close_stream
close_stream-IsShut b a id x (st, hx, shut) = elim (Option-cases (conn b a)) [
  | inl gone ↦ rw (gone, close_stream) (st, hx, shut)
  | inr (c, hc) ↦ elim (Option-cases (GoMap.get c.streams id)) [
    | inl missing ↦ rw (hc, close_stream) (rw (missing, close_stream) (st, hx, shut))
    | inr (y, hs) ↦
        let (_, closed, others, _) = close_stream_lem b a id y c hc hs in
        elim (Bool-cases (x == y)) [
          | inl same ↦ (record st { done = true }, ground (arith, closed, hx), refl)
          | inr apart ↦ (st, ground (arith, others x), shut)
        ]
  ]
]

-- The connection that has the stream.
pub conn_of :
    (b : Broker) (a id x : ℕ)
    → get_stream b a id ≡ some x
    → (c : ClientConn) × (conn b a ≡ some c) × (GoMap.get c.streams id ≡ some x)
unfolding get_stream
conn_of b a id x h = elim (Option-cases (conn b a)) [
  | inl gone ↦ let k : ⊥ = ground arith in absurd k
  | inr (c, hc) ↦ (c, hc, ground arith)
]

module _ (setup : Setup) where
  pub finish_response-broker :
      (s : Server) (r : Request) (d : Bytes) → (finish_response setup s r d).0.broker ≡ s.broker
  unfolding finish_response write_response refuse
  finish_response-broker s r d = ground arith

  wake-SameConns :
      (s s' : Server) (r : Request) (woken : Woken) (x : ℕ) (st : Stream) (calls : List WriterCall)
      → stream s.broker x ≡ some st
      → wake setup s r woken x st ≡ some (s', calls)
      → SameConns s.broker s'.broker x st
  unfolding wake take_response refuse
  wake-SameConns s s' r response x st calls hx h = received st.response refl
    where
      received : (l : List Bytes) → st.response ≡ l → SameConns s.broker s'.broker x st
      received [] e = let k : ⊥ = ground arith in absurd k
      received (d ∷ later) e =
          let st' : Stream = record st { response = later } in
          let taken : Server = record s { broker = set_stream s.broker x st' } in
          let same : finish_response setup taken r d ≡ (s', calls) = ground arith in
          let kept : s'.broker ≡ taken.broker =
            ap (λ (o : Server × List WriterCall). o.0.broker) (sym same)
            ∙ finish_response-broker taken r d in
          rw kept (refl, (st', ground (arith, GoMap.get-put s.broker.heap.stream_at x x st'), refl))
  wake-SameConns s s' r done x st calls hx h = (ground arith, (st, ground arith, refl))
  wake-SameConns s s' r timeout x st calls hx h = (ground arith, (st, ground arith, refl))

  pub resume-cases :
      (s s' : Server) (r : Request) (woken : Woken) (a x id : ℕ) (calls : List WriterCall)
      → resume setup s r woken a x id ≡ some (s', calls)
      → (st : Stream) × (t : Server) × (stream s.broker x ≡ some st)
        × (wake setup s r woken x st ≡ some (t, calls))
        × (s' ≡ record t { broker = close_stream t.broker a id })
  unfolding resume
  resume-cases s s' r woken a x id calls h = elim (Option-cases (stream s.broker x)) [
    | inl gone ↦ let k : ⊥ = ground arith in absurd k
    | inr (st, hx) ↦ elim (Option-cases (wake setup s r woken x st)) [
      | inl stuck ↦ let k : ⊥ = ground arith in absurd k
      | inr ((t, c), e) ↦ (st, t, hx, ground arith, ground arith)
    ]
  ]

  -- Whichever way the wait for a stream ends, with a response that is good or bad, a closed stream or
  -- a timeout, and even if the handler then panics: the connection does not have the stream any more
  -- and its Done channel is closed. When the select takes its case, the connection has the stream
  -- still, or the stream's Done channel is closed already, as after the client's close_stream.
  pub resume-closes :
      (s s' : Server) (r : Request) (woken : Woken) (a x id : ℕ) (calls : List WriterCall)
      → (get_stream s.broker a id ≡ some x) ⊎ IsShut s.broker x
      → resume setup s r woken a x id ≡ some (s', calls)
      → (get_stream s'.broker a id ≡ none) × IsShut s'.broker x
  resume-closes s s' r woken a x id calls g h =
      let (st, t, hx, woke, same) = resume-cases s s' r woken a x id calls h in
      let (conns, (st', hx', still)) = wake-SameConns s t r woken x st calls hx woke in
      rw same (
        close_stream-get_stream t.broker a id,
        elim g [
          | inl held ↦
              let (c, hc, hs) = conn_of s.broker a id x held in
              let hc' : conn t.broker a ≡ some c = ground arith in
              let (_, shut, _, _) = close_stream_lem t.broker a id x c hc' hs in
              (record st' { done = true }, ground (arith, shut, hx'), refl)
          | inr (old, there, shut) ↦
              let whole : old ≡ st = cc in
              close_stream-IsShut t.broker a id x (st', hx', still ∙ rw whole at shut)
        ],
      )
