-- ===== src/Broker/Streams.antt =====
-- Opening and closing streams: ids are fresh while the counter has not wrapped, and what a close
-- touches.
use go_tunnel.Base.{
  ℕ, ◌+◌, ◌%◌, ◌^◌, ◌≤◌, ◌<◌, Bytes, Bool, true, false, Option, none, some, List, [], ◌∷◌, arith,
  ◌≡◌, ◌≢◌, refl, nat_eq, bytes_eq, ◌==◌, if◌then◌else◌, ◌||◌, inl, inr, Bool-cases, Option-cases,
  ◌∙◌,
}
use go_tunnel.GoMap
use go_tunnel.GoMap.{GoMap}
use go_tunnel.Broker.{
  Stream, ClientConn, Broker, conn, stream, close_done, close_all, open_stream, close_stream,
}

-- Each registered connection exists under its own id, addresses in use are below the next one, every entry of a stream map leads to a stream of that id,
-- and no id passes the counter.
pub record Inv (b : Broker) : Type 0 where
  pub registered :
      (cid : Bytes) (a : ℕ)
      → GoMap.get b.connections cid ≡ some a
      → (c : ClientConn) × (conn b a ≡ some c) × (c.conn_id ≡ cid)
  pub conn_used : (a : ℕ) (c : ClientConn) → conn b a ≡ some c → a < b.heap.next
  pub stream_used : (x : ℕ) (s : Stream) → stream b x ≡ some s → x < b.heap.next
  pub opened :
      (a id x : ℕ) (c : ClientConn)
      → conn b a ≡ some c
      → GoMap.get c.streams id ≡ some x
      → (s : Stream) × (stream b x ≡ some s) × (s.id ≡ id) × (id ≤ b.next_stream_id)

abbrev pub closed_stream : Option Stream → Option Stream
closed_stream none = none
closed_stream (some s) = some (record s { done = true })

closed_again : (s : Stream) → s.done ≡ true → s ≡ record s { done = true }
closed_again s h = ground arith

-- Closing a Done channel closes that stream alone, whether or not it was closed before.
pub stream-close_done :
    (b : Broker) (a x : ℕ)
    → stream (close_done b a) x ≡ (if a == x then closed_stream (stream b x) else stream b x)
unfolding close_done
stream-close_done b a x = elim (Option-cases (stream b a)) [
  | inl gone ↦ rw (gone, close_done) (ground arith)
  | inr (s, e) ↦ elim (Bool-cases s.done) [
    | inl shut ↦ rw (e, close_done) (rw (shut, close_done) (ground (arith, closed_again s shut)))
    | inr open_ ↦
        rw (e, close_done)
          (rw (open_, close_done)
            (ground (arith, GoMap.get-put b.heap.stream_at a x (record s { done = true }))))
  ]
]

-- Nothing but the streams differs.
pub record SameFrame (b b' : Broker) : Type 0 where
  pub connections : b'.connections ≡ b.connections
  pub routes : b'.subdomain_to_conn ≡ b.subdomain_to_conn
  pub counter : b'.next_stream_id ≡ b.next_stream_id
  pub conns : b'.heap.conn_at ≡ b.heap.conn_at
  pub next : b'.heap.next ≡ b.heap.next

pub close_done-SameFrame : (b : Broker) (a : ℕ) → SameFrame b (close_done b a)
unfolding close_done
close_done-SameFrame b a = record {
  connections = ground arith;
  routes = ground arith;
  counter = ground arith;
  conns = ground arith;
  next = ground arith;
}

pub close_all-SameFrame : (l : List (ℕ × ℕ)) (b : Broker) → SameFrame b (close_all l b)
unfolding close_all
close_all-SameFrame [] b = record {
  connections = refl;
  routes = refl;
  counter = refl;
  conns = refl;
  next = refl;
}
close_all-SameFrame ((id, a) ∷ l) b =
    let f = close_done-SameFrame b a in
    let g = close_all-SameFrame l (close_done b a) in
    record {
      connections = g.connections ∙ f.connections;
      routes = g.routes ∙ f.routes;
      counter = g.counter ∙ f.counter;
      conns = g.conns ∙ f.conns;
      next = g.next ∙ f.next;
    }

-- The address is among those of the entries.
abbrev pub has_address : ℕ → List (ℕ × ℕ) → Bool
has_address x [] = false
has_address x ((id, a) ∷ l) = a == x || has_address x l

closed_twice : (o : Option Stream) → closed_stream (closed_stream o) ≡ closed_stream o
closed_twice none = refl
closed_twice (some s) = refl

pub stream-close_all :
    (l : List (ℕ × ℕ)) (b : Broker) (x : ℕ)
    → stream (close_all l b) x
      ≡ (if has_address x l then closed_stream (stream b x) else stream b x)
unfolding close_all
stream-close_all [] b x = refl
stream-close_all ((id, a) ∷ l) b x =
    stream-close_all l (close_done b a) x
    ∙ rw (stream-close_done b a x) (ground (arith, closed_twice (stream b x)))

-- CloseStream on a stream that the connection has: the stream leaves the connection's map and its
-- Done channel is closed, whether or not it was before; no other stream of any connection changes.
pub close_stream_lem :
    (b : Broker) (a id x : ℕ) (c : ClientConn)
    → conn b a ≡ some c
    → GoMap.get c.streams id ≡ some x
    → let b' = close_stream b a id in
      (conn b' a ≡ some (record c { streams = GoMap.delete c.streams id }))
      × (stream b' x ≡ closed_stream (stream b x))
      × ((y : ℕ) → y ≢ x → stream b' y ≡ stream b y)
      × ((a' : ℕ) → a' ≢ a → conn b' a' ≡ conn b a')
unfolding close_stream
close_stream_lem b a id x c hc hx =
    let c' : ClientConn = record c { streams = GoMap.delete c.streams id } in
    rw (hc, close_stream)
      (rw (hx, close_stream)
        (
          ground (arith, GoMap.get-put (close_done b x).heap.conn_at a a c'),
          ground (arith, stream-close_done b x x),
          λ y ne. ground (arith, stream-close_done b x y),
          λ a' ne. ground (
            arith,
            GoMap.get-put (close_done b x).heap.conn_at a a' c',
            (close_done-SameFrame b x).conns,
          ),
        ))

-- In a well-formed broker, while the counter has not wrapped, a new stream's id is one that no connection uses.
pub open_stream_fresh :
    (b : Broker) (a a' : ℕ) (tunnel_id : Bytes) (c : ClientConn)
    → Inv b
    → b.next_stream_id + 1 < 2 ^ 32
    → conn b a' ≡ some c
    → GoMap.get c.streams (open_stream b a tunnel_id).0.next_stream_id ≡ none
unfolding open_stream
open_stream_fresh b a a' tunnel_id c v room hc =
    let id = (b.next_stream_id + 1) % 2 ^ 32 in
    elim (Option-cases (GoMap.get c.streams id)) [
      | inl free ↦ ground arith
      | inr (x, used) ↦ let (s, _, _, small) = v.opened a' id x c hc used in absurd (omega arith)
    ]

-- OpenStream on a connection of a well-formed broker, while the counter has not wrapped: the new
-- stream has the next id, an empty response and an open Done channel, stands at an address that no
-- stream had, and is entered in the connection's map; no other stream or connection changes.
pub open_stream_lem :
    (b : Broker) (a : ℕ) (tunnel_id : Bytes) (c : ClientConn)
    → Inv b
    → b.next_stream_id + 1 < 2 ^ 32
    → conn b a ≡ some c
    → let (b', x) = open_stream b a tunnel_id in
      let id = b.next_stream_id + 1 in
      (conn b' a ≡ some (record c { streams = GoMap.put c.streams id x }))
      × (stream b' x
          ≡ some (record { id = id; tunnel_id = tunnel_id; response = []; done = false }))
      × (stream b x ≡ none)
      × ((y : ℕ) → y ≢ x → stream b' y ≡ stream b y)
      × ((a' : ℕ) → a' ≢ a → conn b' a' ≡ conn b a')
unfolding open_stream
open_stream_lem b a tunnel_id c v room hc =
    let x = b.heap.next in
    let s : Stream = record {
      id = b.next_stream_id + 1;
      tunnel_id = tunnel_id;
      response = [];
      done = false;
    } in
    let c' : ClientConn = record c { streams = GoMap.put c.streams (b.next_stream_id + 1) x } in
    let small : (b.next_stream_id + 1) % 2 ^ 32 ≡ b.next_stream_id + 1 = omega arith in
    rw (hc, open_stream)
      (rw small (
        ground (arith, GoMap.get-put b.heap.conn_at a a c'),
        ground (arith, GoMap.get-put b.heap.stream_at x x s),
        elim (Option-cases (stream b x)) [
          | inl free ↦ free
          | inr (old, used) ↦ absurd (omega (arith, v.stream_used x old used))
        ],
        λ y ne. ground (arith, GoMap.get-put b.heap.stream_at x y s),
        λ a' ne. ground (arith, GoMap.get-put b.heap.conn_at a a' c'),
      ))
