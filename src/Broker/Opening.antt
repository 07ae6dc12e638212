-- ===== src/Broker/Opening.antt =====
-- AddConnection and OpenStream keep the heap of the broker well formed.
use go_tunnel.Base.{
  ℕ, ◌+◌, ◌%◌, ◌^◌, ◌≤◌, ◌<◌, Bytes, false, some, [], arith, ◌≡◌, nat_eq, bytes_eq, bytes_beq_iff,
  ◌==◌, inl, inr, Bool-cases, Option-cases,
}
use go_tunnel.GoMap
use go_tunnel.GoMap.{GoMap}
use go_tunnel.Broker.{
  Stream, ClientConn, Broker, conn, stream, set_conn, add_connection, open_stream,
}
use go_tunnel.Broker.Streams.{Inv}

pub add_connection-Inv :
    (b : Broker) (cid user : Bytes) (ws : ℕ) → Inv b → Inv (add_connection b cid user ws).0
unfolding add_connection
add_connection-Inv b cid user ws v = record {
  registered = λ k a h. elim (Bool-cases (cid == k)) [
    | inl new ↦ (
      c,
      ground (
        arith,
        GoMap.get-put b.connections cid k b.heap.next,
        GoMap.get-put b.heap.conn_at b.heap.next a c,
      ),
      ground (arith, bytes_beq_iff cid k),
    )
    | inr old ↦
        let (d, there, named) =
          v.registered k a (ground (arith, GoMap.get-put b.connections cid k b.heap.next)) in
        (
          d,
          ground (arith, GoMap.get-put b.heap.conn_at b.heap.next a c, v.conn_used a d there),
          named,
        )
  ];
  conn_used =
      λ a d h. ground (arith, GoMap.get-put b.heap.conn_at b.heap.next a c, v.conn_used a d);
  stream_used = λ x s h. omega (arith, v.stream_used x s h);
  opened = λ a j x d h k. elim (Bool-cases (b.heap.next == a)) [
    | inl hit ↦
        let empty_map : ⊥ =
          ground (arith, GoMap.get-put b.heap.conn_at b.heap.next a c, GoMap.get-empty {V = ℕ} j) in
        absurd empty_map
    | inr miss ↦ v.opened a j x d (ground (arith, GoMap.get-put b.heap.conn_at b.heap.next a c)) k
  ];
}
  where
    c : ClientConn
    c = record { conn_id = cid; user_id = user; ws = ws; tunnels = []; streams = GoMap.empty }

-- A new stream on the heap, under the next id, that no connection has yet.
with_stream : Broker → Bytes → Broker
with_stream b tunnel_id = record b {
  next_stream_id = b.next_stream_id + 1;
  heap = record b.heap {
    stream_at =
        GoMap.put b.heap.stream_at b.heap.next (record {
          id = b.next_stream_id + 1;
          tunnel_id = tunnel_id;
          response = [];
          done = false;
        });
    next = b.heap.next + 1;
  };
}

with_stream-Inv : (b : Broker) (tunnel_id : Bytes) → Inv b → Inv (with_stream b tunnel_id)
unfolding with_stream
with_stream-Inv b tunnel_id v = record {
  registered = v.registered;
  conn_used = λ a c h. omega (arith, v.conn_used a c h);
  stream_used =
      λ x t h. ground (arith, GoMap.get-put b.heap.stream_at b.heap.next x s, v.stream_used x t);
  opened = λ a j x c h k.
      let (t, there, named, small) = v.opened a j x c h k in
      (
        t,
        ground (arith, GoMap.get-put b.heap.stream_at b.heap.next x s, v.stream_used x t there),
        named,
        omega arith,
      );
}
  where
    s : Stream
    s = record { id = b.next_stream_id + 1; tunnel_id = tunnel_id; response = []; done = false }

-- A connection is given one stream more, which exists under its id.
grown-Inv :
    (b : Broker) (a x : ℕ) (s : Stream) (c : ClientConn)
    → conn b a ≡ some c
    → stream b x ≡ some s
    → s.id ≤ b.next_stream_id
    → Inv b
    → Inv (set_conn b a (record c { streams = GoMap.put c.streams s.id x }))
grown-Inv b a x s c hc hs small v = record {
  registered = λ k a' h.
      let (d, there, named) = v.registered k a' h in
      elim (Bool-cases (a == a')) [
        | inl hit ↦ (c', ground (arith, GoMap.get-put b.heap.conn_at a a' c'), ground arith)
        | inr miss ↦ (d, ground (arith, GoMap.get-put b.heap.conn_at a a' c'), named)
      ];
  conn_used = λ a' d h.
      ground (arith, GoMap.get-put b.heap.conn_at a a' c', v.conn_used a c hc, v.conn_used a' d);
  stream_used = v.stream_used;
  opened = λ a' j y d h k. elim (Bool-cases (a == a')) [
    | inl hit ↦ elim (Bool-cases (s.id == j)) [
      | inl new ↦ (
        s,
        ground (arith, GoMap.get-put b.heap.conn_at a a' c', GoMap.get-put c.streams s.id j x),
        ground arith,
        ground arith,
      )
      | inr old ↦
          v.opened a j y c hc
            (ground (arith, GoMap.get-put b.heap.conn_at a a' c', GoMap.get-put c.streams s.id j x))
    ]
    | inr miss ↦ v.opened a' j y d (ground (arith, GoMap.get-put b.heap.conn_at a a' c')) k
  ];
}
  where
    c' : ClientConn
    c' = record c { streams = GoMap.put c.streams s.id x }

pub open_stream-Inv :
    (b : Broker) (a : ℕ) (tunnel_id : Bytes)
    → b.next_stream_id + 1 < 2 ^ 32
    → Inv b
    → Inv (open_stream b a tunnel_id).0
unfolding open_stream with_stream
open_stream-Inv b a tunnel_id room v =
    let small : (b.next_stream_id + 1) % 2 ^ 32 ≡ b.next_stream_id + 1 = omega arith in
    elim (Option-cases (conn b a)) [
      | inl gone ↦ rw (gone, open_stream) (rw small (with_stream-Inv b tunnel_id v))
      | inr (c, hc) ↦
          rw (hc, open_stream)
            (rw small (
              grown-Inv (with_stream b tunnel_id) a b.heap.next s c hc
                (ground (arith, GoMap.get-put b.heap.stream_at b.heap.next b.heap.next s))
                (omega arith) (with_stream-Inv b tunnel_id v)))
    ]
  where
    s : Stream
    s = record { id = b.next_stream_id + 1; tunnel_id = tunnel_id; response = []; done = false }
