-- ===== src/Gateway/Sound.antt =====
-- What the small changes of the gateway's state keep.
use go_tunnel.Base.{
  ℕ, Bytes, some, List, [], ◌∷◌, arith, ◌≡◌, inl, inr, Option-cases, Bool-cases, nat_eq, bytes_eq,
  ◌==◌,
}
use go_tunnel.Base.Result.{Result-cases}
use go_tunnel.GoMap
use go_tunnel.Registry
use go_tunnel.Registry.{MemoryRegistry}
use go_tunnel.Registry.Invariant.{unregister-Inv}
use go_tunnel.Broker
use go_tunnel.Broker.{Broker, Stream, ClientConn, conn, stream, set_stream, set_conn, set_tunnels}
use go_tunnel.Broker.Streams.{Inv}
use go_tunnel.Broker.Invariant.{unmaps, step, step-Inv}
use go_tunnel.Broker.Closing.{remove_connection-Inv}
use go_tunnel.Server.{Server, unmap_tunnel, drop_tunnel, cleanup_tunnels, cleanup_connection}

-- The registry's maps agree, and the broker's heap is well formed.
pub record IsSound (s : Server) : Type 0 where
  pub registry : Registry.Invariant.Inv s.registry
  pub broker : Broker.Streams.Inv s.broker

pub set_stream-Inv :
    (b : Broker) (x : ℕ) (old new : Stream)
    → stream b x ≡ some old
    → new.id ≡ old.id
    → Inv b
    → Inv (set_stream b x new)
set_stream-Inv b x old new there same v = record {
  registered = v.registered;
  conn_used = v.conn_used;
  stream_used = λ y s h.
      ground (
        arith,
        GoMap.get-put b.heap.stream_at x y new,
        v.stream_used x old there,
        v.stream_used y s,
      );
  opened = λ a id y c h k.
      let (s, found, named, low) = v.opened a id y c h k in
      let put = GoMap.get-put b.heap.stream_at x y new in
      elim (Bool-cases (x == y)) [
        | inl hit ↦ (new, ground (arith, put), ground arith, low)
        | inr miss ↦ (s, ground (arith, put), named, low)
      ];
}

pub set_tunnels-Inv : (b : Broker) (a : ℕ) (ids : List Bytes) → Inv b → Inv (set_tunnels b a ids)
unfolding set_tunnels
set_tunnels-Inv b a ids v = elim (Option-cases (conn b a)) [
  | inl gone ↦ rw (gone, set_tunnels) v
  | inr (c, hc) ↦ rw (hc, set_tunnels) (replaced c hc)
]
  where
    replaced :
        (c : ClientConn) → conn b a ≡ some c → Inv (set_conn b a (record c { tunnels = ids }))
    replaced c hc =
        let c' : ClientConn = record c { tunnels = ids } in
        record {
          registered = λ k a' h.
              let (d, there, named) = v.registered k a' h in
              let put = GoMap.get-put b.heap.conn_at a a' c' in
              elim (Bool-cases (a == a')) [
                | inl hit ↦ (c', ground (arith, put), ground arith)
                | inr miss ↦ (d, ground (arith, put), named)
              ];
          conn_used = λ a' d h.
              ground
                (arith, GoMap.get-put b.heap.conn_at a a' c', v.conn_used a c hc, v.conn_used a' d);
          stream_used = v.stream_used;
          opened = λ a' j x d h k.
              let put = GoMap.get-put b.heap.conn_at a a' c' in
              elim (Bool-cases (a == a')) [
                | inl hit ↦ v.opened a j x c hc (ground (arith, put))
                | inr miss ↦ v.opened a' j x d (ground (arith, put)) k
              ];
        }

unmap_tunnel-IsSound : (s : Server) (id : Bytes) → IsSound s → IsSound (unmap_tunnel s id)
unfolding unmap_tunnel step
unmap_tunnel-IsSound s id v = elim (Result-cases (Registry.get_by_id s.registry id)) [
  | inl (t, e) ↦
      rw (e, unmap_tunnel)
        (record {
          registry = v.registry;
          broker = step-Inv s.broker (unmaps t.subdomain) tt v.broker;
        })
  | inr (x, e) ↦ rw (e, unmap_tunnel) v
]

drop_tunnel-IsSound : (s : Server) (id : Bytes) → IsSound s → IsSound (drop_tunnel s id)
unfolding drop_tunnel
drop_tunnel-IsSound s id v =
    let kept = unregister-Inv s.registry id v.registry in
    elim (Option-cases (Registry.unregister s.registry id).1) [
      | inl e ↦ rw (e, drop_tunnel) (record { registry = kept; broker = v.broker })
      | inr (x, e) ↦ rw (e, drop_tunnel) (record { registry = kept; broker = v.broker })
    ]

cleanup_tunnels-IsSound :
    (s : Server) (ids : List Bytes) → IsSound s → IsSound (cleanup_tunnels s ids)
unfolding cleanup_tunnels
cleanup_tunnels-IsSound s [] v = v
cleanup_tunnels-IsSound s (id ∷ ids) v =
    cleanup_tunnels-IsSound (drop_tunnel (unmap_tunnel s id) id) ids
      (drop_tunnel-IsSound (unmap_tunnel s id) id (unmap_tunnel-IsSound s id v))

pub cleanup_connection-IsSound :
    (s : Server) (cid : Bytes) (ids : List Bytes)
    → IsSound s
    → IsSound (cleanup_connection s cid ids)
unfolding cleanup_connection
cleanup_connection-IsSound s cid ids v =
    let w = cleanup_tunnels-IsSound s ids v in
    record {
      registry = w.registry;
      broker = remove_connection-Inv (cleanup_tunnels s ids).broker cid w.broker;
    }
