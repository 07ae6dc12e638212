-- ===== src/Broker/Closing.antt =====
-- The methods of the broker that take something away keep its heap well formed.
use go_tunnel.Base.{
  ℕ, ◌<◌, Bytes, true, some, List, [], ◌∷◌, arith, ◌≡◌, nat_eq, bytes_eq, ◌==◌, if◌then◌else◌, inl,
  inr, Bool-cases, Option-cases,
}
use go_tunnel.GoMap
use go_tunnel.GoMap.{GoMap}
use go_tunnel.Broker.{
  Stream, ClientConn, Broker, conn, stream, set_conn, close_done, close_all, remove_connection,
  close_stream, streams_of, routes_to,
}
use go_tunnel.Broker.Streams.{Inv, close_done-SameFrame, closed_stream, stream-close_done}

-- Closing a Done channel keeps every field of the invariant.
close_done-Inv : (b : Broker) (x : ℕ) → Inv b → Inv (close_done b x)
close_done-Inv b x v =
    let f = close_done-SameFrame b x in
    record {
      registered = λ cid a h. rw f.conns (v.registered cid a (rw f.connections at h));
      conn_used = λ a c h. rw f.next (v.conn_used a c (rw f.conns at h));
      stream_used = λ y s h. rw f.next (used y s (rw stream-close_done at h));
      opened = λ a id y c h k.
          let (s, found, same, small) = v.opened a id y c (rw f.conns at h) k in
          elim (Bool-cases (x == y)) [
            | inl hit ↦ (
              record s { done = true },
              ground (arith, stream-close_done b x y),
              same,
              rw f.counter small,
            )
            | inr miss ↦ (s, ground (arith, stream-close_done b x y), same, rw f.counter small)
          ];
    }
  where
    used :
        (y : ℕ) (s : Stream)
        → (if x == y then closed_stream (stream b y) else stream b y) ≡ some s
        → y < b.heap.next
    used y s h = elim (Option-cases (stream b y)) [
      | inl e ↦ ground arith
      | inr (old, e) ↦ v.stream_used y old e
    ]

close_all-Inv : (l : List (ℕ × ℕ)) (b : Broker) → Inv b → Inv (close_all l b)
unfolding close_all
close_all-Inv [] b v = v
close_all-Inv ((id, a) ∷ l) b v = close_all-Inv l (close_done b a) (close_done-Inv b a v)

-- The routes play no part.
pub rerouted-Inv :
    (b : Broker) (routes : GoMap Bytes Bytes)
    → Inv b
    → Inv (record b { subdomain_to_conn = routes })
rerouted-Inv b routes v = record {
  registered = v.registered;
  conn_used = v.conn_used;
  stream_used = v.stream_used;
  opened = v.opened;
}

unregistered-Inv :
    (b : Broker) (cid : Bytes)
    → Inv b
    → Inv (record b { connections = GoMap.delete b.connections cid })
unregistered-Inv b cid v = record {
  registered = λ k a h. v.registered k a (ground (arith, GoMap.get-delete b.connections cid k));
  conn_used = v.conn_used;
  stream_used = v.stream_used;
  opened = v.opened;
}

-- A connection is replaced by one with the same id and fewer streams.
shrunk-Inv :
    (b : Broker) (a id : ℕ) (c : ClientConn)
    → conn b a ≡ some c
    → Inv b
    → Inv (set_conn b a (record c { streams = GoMap.delete c.streams id }))
shrunk-Inv b a id c hc v = record {
  registered = λ k a' h.
      let (d, there, named) = v.registered k a' h in
      elim (Bool-cases (a == a')) [
        | inl hit ↦ (c', ground (arith, GoMap.get-put b.heap.conn_at a a' c'), ground arith)
        | inr miss ↦ (d, ground (arith, GoMap.get-put b.heap.conn_at a a' c'), named)
      ];
  conn_used = λ a' d h.
      ground (arith, GoMap.get-put b.heap.conn_at a a' c', v.conn_used a c hc, v.conn_used a' d);
  stream_used = v.stream_used;
  opened = λ a' j x d h k. elim (Bool-cases (a == a')) [
    | inl hit ↦
        v.opened a j x c hc
          (ground (arith, GoMap.get-put b.heap.conn_at a a' c', GoMap.get-delete c.streams id j))
    | inr miss ↦ v.opened a' j x d (ground (arith, GoMap.get-put b.heap.conn_at a a' c')) k
  ];
}
  where
    c' : ClientConn
    c' = record c { streams = GoMap.delete c.streams id }

pub close_stream-Inv : (b : Broker) (a id : ℕ) → Inv b → Inv (close_stream b a id)
unfolding close_stream
close_stream-Inv b a id v = elim (Option-cases (conn b a)) [
  | inl gone ↦ rw (gone, close_stream) v
  | inr (c, hc) ↦ elim (Option-cases (GoMap.get c.streams id)) [
    | inl none_there ↦ rw (hc, close_stream) (rw (none_there, close_stream) v)
    | inr (x, hx) ↦
        rw (hc, close_stream)
          (rw (hx, close_stream)
            (shrunk-Inv (close_done b x) a id c (rw (close_done-SameFrame b x).conns hc)
              (close_done-Inv b x v)))
  ]
]

pub remove_connection-Inv : (b : Broker) (cid : Bytes) → Inv b → Inv (remove_connection b cid)
unfolding remove_connection
remove_connection-Inv b cid v = elim (Option-cases (GoMap.get b.connections cid)) [
  | inl gone ↦ rw (gone, remove_connection) v
  | inr (a, h) ↦
      rw (h, remove_connection)
        (unregistered-Inv _ cid (
          close_all-Inv (streams_of (conn b a)) _
            (rerouted-Inv b (GoMap.delete_if b.subdomain_to_conn (routes_to cid)) v)))
]
