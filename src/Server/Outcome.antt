-- ===== src/Server/Outcome.antt =====
-- What a handshake achieves: every tunnel of an accepted client is registered and routed to it. And
-- what it breaks: a second connection under the id of a first one.
use go_tunnel.Base.{
  ◌∙◌, inl, inr, Option-cases, Bool-cases, ℕ, Bytes, bytes, true, false, none, some, List, [], ◌∷◌,
  ◌++◌, map, arith, ◌≡◌, ap, bytes_eq, nat_eq, bytes_beq_iff,
}
use go_tunnel.Base.Int.{ℤ}
use go_tunnel.Base.Member.{contains}
use go_tunnel.Base.Result.{ok}
use go_tunnel.GoMap
use go_tunnel.Protocol.{Register, TunnelConfig, code_invalid_request}
use go_tunnel.Registry.{Tunnel, RegistryError, register, get_by_subdomain, get_by_id}
use go_tunnel.Auth.{Token}
use go_tunnel.Broker.{add_connection, get_connection_by_subdomain}
use go_tunnel.Broker.Routes.{remove_connection-maps}
use go_tunnel.Server.{
  Codecs, Server, registry_error_text, send_control_response, cleanup_connection,
}
use go_tunnel.Server.Connect.{
  tunnel_id, new_tunnel, choose_conn_id, accept, serving, finish_registration, register_tunnels,
}
use go_tunnel.Server.Loop.{subdomain_of}
use go_tunnel.Server.Undo.{joined, IsFresh, own_none}
use go_tunnel.Server.Registered.{With}
use go_tunnel.Registry.Invariant.{Inv}
use go_tunnel.Server.Rollback.{accept_lem, accept-Served, sent_only}

module _ (codecs : Codecs) (clock : ℕ → ℤ) where
  -- A lookup of a subdomain that the new connection has not registered.
  other_tunnel :
      (s : Server) (conn_id sub : Bytes) (subs : List Bytes) (s1 : Server) (user : Bytes) (ws : ℕ)
      → IsFresh s conn_id
      → Inv s.registry
      → With (joined s conn_id user ws) s1 conn_id subs
      → contains subs sub ≡ false
      → get_by_subdomain s1.registry sub ≡ get_by_subdomain s.registry sub
  unfolding get_by_subdomain
  other_tunnel s conn_id sub subs s1 user ws f v w away =
      elim (Option-cases (GoMap.get s.registry.subdomain_index sub)) [
        | inl missing ↦ ground (arith, w.other_index sub away)
        | inr (id, e) ↦
            let (t, found, _) = v.resolved sub id e in
            elim (Bool-cases (contains (map (tunnel_id conn_id) subs) id)) [
              | inl own ↦
                  let gone = own_none s conn_id f subs id own in
                  let k : ⊥ = ground arith in absurd k
              | inr other ↦ ground (arith, w.other_index sub away, w.other_tunnels id other)
            ]
      ]

  -- When a client is accepted, each subdomain of its register message leads to a tunnel of that
  -- subdomain and to the client's connection, and every other subdomain leads to the tunnel and to the
  -- connection that it led to before. Before, the registry must be well formed, the gateway must have
  -- no connection, no route and no tunnel of the new connection's id, and it must route no subdomain
  -- that is free.
  pub accept-serving :
      (s s' : Server) (ws a : ℕ) (reg : Register) (token : Token) (conn_id : Bytes)
      (ids : List Bytes) (sub : Bytes)
      → IsFresh s conn_id
      → Inv s.registry
      → accept codecs clock s ws reg token ≡ (s', serving a conn_id ids)
      → (contains (map subdomain_of reg.tunnels) sub ≡ true
          → ((t : Tunnel) × (get_by_subdomain s'.registry sub ≡ ok (some t))
              × (t.subdomain ≡ sub)
              × (get_by_id s'.registry (tunnel_id conn_id sub) ≡ ok t))
            × (get_connection_by_subdomain s'.broker sub ≡ some a))
        × (contains (map subdomain_of reg.tunnels) sub ≡ false
            → (get_by_subdomain s'.registry sub ≡ get_by_subdomain s.registry sub)
              × (get_connection_by_subdomain s'.broker sub
                  ≡ get_connection_by_subdomain s.broker sub))
  unfolding get_by_subdomain get_by_id get_connection_by_subdomain add_connection
  accept-serving s s' ws a reg token conn_id ids sub f u h =
      let v = accept-Served codecs clock s s' ws a reg token conn_id ids h in
      let w = v.tunnels in
      let subs = map subdomain_of reg.tunnels in
      let put = λ (c : Bytes). GoMap.get-put s.broker.connections conn_id c s.broker.heap.next in
      (
        λ there.
            let (t, held, same) = w.held sub there in
            (
              (
                t,
                ground (arith, w.indexed sub there, held, v.registry),
                same,
                ground (arith, held, v.registry),
              ),
              ground (
                arith,
                w.routed sub there,
                w.connections,
                v.routes,
                v.connections,
                v.at,
                put conn_id,
                bytes_beq_iff conn_id conn_id,
              ),
            ),
        λ away. (
          ap (λ r. get_by_subdomain r sub) v.registry
              ∙ other_tunnel s conn_id sub subs v.looped_to token.user_id ws f u w away,
          elim (Option-cases (GoMap.get s.broker.subdomain_to_conn sub)) [
            | inl missing ↦ ground (arith, w.other_routes sub away, v.routes)
            | inr (c, routed) ↦
                let apart = f.no_route sub in
                ground (
                  arith,
                  w.other_routes sub away,
                  v.routes,
                  w.connections,
                  v.connections,
                  put c,
                  bytes_beq_iff conn_id c,
                )
          ],
        ),
      )

  -- The state that is cleaned up when the first tunnel is refused.
  told : Server → ℕ → Bytes → Bytes → RegistryError → Server
  told s ws cid user e =
      send_control_response codecs (joined s cid user ws) ws code_invalid_request
        (bytes "register tunnel failed: " ++ registry_error_text e)

  refused_first :
      (s : Server) (ws : ℕ) (cid user : Bytes) (tc : TunnelConfig) (rest : List TunnelConfig)
      (e : RegistryError)
      → (register s.registry (new_tunnel cid user tc (clock 2) (clock 3))).1 ≡ some e
      → register_tunnels codecs clock ws cid user (tc ∷ rest) [] 2 (joined s cid user ws)
        ≡ (cleanup_connection (told s ws cid user e) cid [], none)
  unfolding register_tunnels told
  refused_first s ws cid user tc rest e refused = rw (refused, register_tunnels)

  told_cleaned :
      (s : Server) (ws : ℕ) (cid user : Bytes) (e : RegistryError) (sub : Bytes)
      → GoMap.get s.broker.subdomain_to_conn sub ≡ some cid
      → let s' = cleanup_connection (told s ws cid user e) cid [] in
        (get_connection_by_subdomain s'.broker sub ≡ none) × (s'.registry ≡ s.registry)
  unfolding cleanup_connection get_connection_by_subdomain told add_connection
  told_cleaned s ws cid user e sub routed =
      let t = told s ws cid user e in
      let (l, same) =
        sent_only codecs clock (joined s cid user ws) ws code_invalid_request
          (bytes "register tunnel failed: " ++ registry_error_text e) in
      let put = GoMap.get-put s.broker.connections cid cid s.broker.heap.next in
      let here : GoMap.get t.broker.connections cid ≡ some s.broker.heap.next =
        ground (arith, same, put, bytes_beq_iff cid cid) in
      let routes : GoMap.get t.broker.subdomain_to_conn sub ≡ some cid = ground (arith, same) in
      let (_, removed) = remove_connection-maps t.broker cid s.broker.heap.next here in
      (
        ground (arith, removed sub, routes, bytes_beq_iff cid cid),
        ap (λ (z : Server). z.registry) same,
      )

  -- If a client connects under an id that is in use and its first tunnel is refused, no subdomain
  -- that was routed to the first connection of that id leads anywhere, though every tunnel is still
  -- registered.
  pub duplicate_unroutes :
      (s : Server) (ws : ℕ) (reg : Register) (token : Token) (tc : TunnelConfig)
      (rest : List TunnelConfig) (e : RegistryError) (sub : Bytes)
      → let cid = choose_conn_id reg.client_id (clock 1) in
        reg.tunnels ≡ tc ∷ rest
        → (register s.registry (new_tunnel cid token.user_id tc (clock 2) (clock 3))).1 ≡ some e
        → GoMap.get s.broker.subdomain_to_conn sub ≡ some cid
        → let s' = (accept codecs clock s ws reg token).0 in
          (get_connection_by_subdomain s'.broker sub ≡ none) × (s'.registry ≡ s.registry)
  unfolding finish_registration
  duplicate_unroutes s ws reg token tc rest e sub listed refused routed =
      let cid = choose_conn_id reg.client_id (clock 1) in
      rw (accept_lem codecs clock s ws reg token) (
        rw listed (
          rw (refused_first s ws cid token.user_id tc rest e refused)
            (told_cleaned s ws cid token.user_id e sub routed)))
