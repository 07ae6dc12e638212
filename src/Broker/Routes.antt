-- ===== src/Broker/Routes.antt =====
-- Routing: which connection a subdomain leads to, before and after a connection is removed.
use go_tunnel.Base.{
  ℕ, Bytes, true, Option, none, some, List, [], ◌∷◌, arith, ◌≡◌, nat_eq, bytes_eq, bytes_beq_iff,
  ◌==◌, if◌then◌else◌, inl, inr, Option-cases,
}
use go_tunnel.GoMap
use go_tunnel.GoMap.{GoMap}
use go_tunnel.GoMap.Assoc.{Contains, unless}
use go_tunnel.Broker.{
  ClientConn, Broker, conn, stream, close_all, remove_connection, get_connection,
  get_connection_by_subdomain, routes_to, streams_of,
}
use go_tunnel.Broker.Streams.{
  closed_stream, has_address, stream-close_all, close_all-SameFrame, SameFrame,
}

-- What a route leads to once the connection of that id is gone.
abbrev pub route_without : Broker → Bytes → Option Bytes → Option ℕ
route_without b gone none = none
route_without b gone (some cid) = if cid == gone then none else get_connection b cid

-- An entry's address is among the addresses.
Contains-has_address : (id x : ℕ) (l : List (ℕ × ℕ)) → Contains id x l → has_address x l ≡ true
Contains-has_address id x [] c = absurd c
Contains-has_address id x ((j, y) ∷ l) (inl (same_id, same)) = ground arith
Contains-has_address id x ((j, y) ∷ l) (inr c) = ground (arith, Contains-has_address id x l c)

-- RemoveConnection on a registered connection: its id is no longer found, no subdomain leads to it,
-- every other subdomain leads where it led, and each of its streams has its Done channel closed.
pub remove_connection_lem :
    (b : Broker) (gone : Bytes) (a : ℕ) (c : ClientConn)
    → get_connection b gone ≡ some a
    → conn b a ≡ some c
    → let b' = remove_connection b gone in
      ((cid : Bytes) → get_connection b' cid ≡ (if gone == cid then none else get_connection b cid))
      × ((s : Bytes)
          → get_connection_by_subdomain b' s
            ≡ route_without b gone (GoMap.get b.subdomain_to_conn s))
      × ((id x : ℕ) → GoMap.get c.streams id ≡ some x → stream b' x ≡ closed_stream (stream b x))
unfolding remove_connection get_connection get_connection_by_subdomain
remove_connection_lem b gone a c ha hc =
    rw (ha, remove_connection)
      (
        λ cid. ground (arith, GoMap.get-delete closed.connections gone cid, frame.connections),
        λ s. elim (Option-cases (GoMap.get b.subdomain_to_conn s)) [
          | inl unrouted ↦
              ground
                (arith, frame.routes, GoMap.get-delete_if b.subdomain_to_conn (routes_to gone) s)
          | inr (cid, e) ↦ ground (
            arith,
            frame.routes,
            frame.connections,
            GoMap.get-delete_if b.subdomain_to_conn (routes_to gone) s,
            GoMap.get-delete closed.connections gone cid,
            bytes_beq_iff cid gone,
            bytes_beq_iff gone cid,
          )
        ],
        λ id x h. ground (
          arith,
          stream-close_all (streams_of (conn b a)) unrouted x,
          Contains-has_address id x (GoMap.range c.streams) (GoMap.get-Contains c.streams id x h),
        ),
      )
  where
    unrouted : Broker
    unrouted = record b { subdomain_to_conn = GoMap.delete_if b.subdomain_to_conn (routes_to gone) }

    closed : Broker
    closed = close_all (streams_of (conn b a)) unrouted

    frame : SameFrame unrouted closed
    frame = close_all-SameFrame (streams_of (conn b a)) unrouted

-- The routes and the connections themselves, after RemoveConnection on a registered connection.
pub remove_connection-maps :
    (b : Broker) (gone : Bytes) (a : ℕ)
    → GoMap.get b.connections gone ≡ some a
    → ((cid : Bytes)
        → GoMap.get (remove_connection b gone).connections cid
          ≡ (if gone == cid then none else GoMap.get b.connections cid))
      × ((s : Bytes)
          → GoMap.get (remove_connection b gone).subdomain_to_conn s
            ≡ unless (routes_to gone) s (GoMap.get b.subdomain_to_conn s))
unfolding remove_connection
remove_connection-maps b gone a ha =
    rw (ha, remove_connection)
      (
        λ cid. ground (arith, GoMap.get-delete closed.connections gone cid, frame.connections),
        λ s.
            ground
              (arith, frame.routes, GoMap.get-delete_if b.subdomain_to_conn (routes_to gone) s),
      )
  where
    unrouted : Broker
    unrouted = record b { subdomain_to_conn = GoMap.delete_if b.subdomain_to_conn (routes_to gone) }

    closed : Broker
    closed = close_all (streams_of (conn b a)) unrouted

    frame : SameFrame unrouted closed
    frame = close_all-SameFrame (streams_of (conn b a)) unrouted
