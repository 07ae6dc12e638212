-- ===== src/Server/Rollback.antt =====
-- A connection that is given up, or that ends, leaves the gateway as it found it.
use go_tunnel.Base.{
  ℕ, Bytes, bytes, Option, some, List, [], map, ◌≡◌, refl, ap, sym, ◌∙◌, ◌⊎◌, inl, inr, bytes_eq,
  nat_eq,
}
use go_tunnel.Base.Int.{ℤ}
use go_tunnel.Protocol.{Register, code_ok, code_invalid_request}
use go_tunnel.Auth.{Token}
use go_tunnel.Broker.{add_connection, set_tunnels}
use go_tunnel.Server.{Codecs, Server, send_control_response, cleanup_connection}
use go_tunnel.Server.Connect.{
  tunnel_id, choose_conn_id, accept, Handshake, closed, serving, finish_registration,
  register_tunnels,
}
use go_tunnel.Server.Registered.{With, With-nil}
use go_tunnel.Server.Loop.{Registered, Refused, loop_outcome, subdomain_of}
use go_tunnel.Server.Undo.{SameGateway, IsFresh, joined, undo, write_only, set_tunnels-maps}

module _ (codecs : Codecs) (clock : ℕ → ℤ) where
  pub sent_only :
      (s : Server) (ws code : ℕ) (m : Bytes)
      → (l : List (ℕ × Bytes)) × (send_control_response codecs s ws code m ≡ record s { sent = l })
  unfolding send_control_response
  sent_only s ws code m = write_only s ws _

  module _ (s : Server) (ws : ℕ) (reg : Register) (token : Token) where
    abbrev pub c : Bytes
    c = choose_conn_id reg.client_id (clock 1)

    abbrev pub looped : Server × Option (List Bytes)
    looped =
        register_tunnels codecs clock ws c token.user_id reg.tunnels [] 2
          (joined s c token.user_id ws)

    pub accept_lem :
        accept codecs clock s ws reg token
        ≡ finish_registration codecs clock ws
            (add_connection s.broker c token.user_id ws).1
            c
            looped
    unfolding accept
    accept_lem = refl

    pub outcome :
        Registered codecs clock ws c token.user_id
          (joined s c token.user_id ws)
          (map subdomain_of reg.tunnels)
          looped
        ⊎ Refused codecs clock ws c token.user_id (joined s c token.user_id ws) looped
    outcome =
        loop_outcome codecs clock ws c token.user_id reg.tunnels [] 2 (joined s c token.user_id ws)
          (joined s c token.user_id ws) (With-nil (joined s c token.user_id ws) c)

  -- Where the gateway does not know the connection's id yet and routes no subdomain that is free, a
  -- connection that is given up because a tunnel was refused leaves the gateway as it was: the
  -- tunnels registered before the refused one, their routes and the connection itself are gone, and
  -- the gauge is back.
  pub accept_rollback :
      (s : Server) (ws : ℕ) (reg : Register) (token : Token)
      → IsFresh s (choose_conn_id reg.client_id (clock 1))
      → (accept codecs clock s ws reg token).1 ≡ closed
      → SameGateway s (accept codecs clock s ws reg token).0
  unfolding finish_registration
  accept_rollback s ws reg token f h = elim (outcome s ws reg token) [
    | inl (s1, e, w) ↦ let k = rw (accept_lem s ws reg token, e) at h in cc
    | inr (s1, subs, message, e, w) ↦
        let (l, same) = sent_only s1 ws code_invalid_request message in
        rw (accept_lem s ws reg token, e)
          (undo s s1 _ (c s ws reg token) token.user_id ws subs f w
            (ap (λ (z : Server). z.registry) same) (ap (λ (z : Server). z.broker.connections) same)
            (ap (λ (z : Server). z.broker.subdomain_to_conn) same)
            (ap (λ (z : Server). z.auth) same) (ap (λ (z : Server). z.metrics) same))
  ]

  -- What the handshake hands to the read loop.
  pub finished :
      (s s1 : Server) (ws : ℕ) (reg : Register) (token : Token) (subs : List Bytes)
      → let cid = c s ws reg token in
        looped s ws reg token ≡ (s1, some (map (tunnel_id cid) subs))
        → (t : Server) × (t.registry ≡ s1.registry)
          × (t.broker.connections ≡ s1.broker.connections)
          × (t.broker.subdomain_to_conn ≡ s1.broker.subdomain_to_conn)
          × (t.auth ≡ s1.auth)
          × (t.metrics ≡ s1.metrics)
          × (accept codecs clock s ws reg token ≡ (
            t,
            serving (add_connection s.broker cid token.user_id ws).1 cid (map (tunnel_id cid) subs),
          ))
  unfolding finish_registration
  finished s s1 ws reg token subs e =
      let cid = c s ws reg token in
      let a = (add_connection s.broker cid token.user_id ws).1 in
      let ids = map (tunnel_id cid) subs in
      let before : Server = record s1 { broker = set_tunnels s1.broker a ids } in
      let (l, same) = sent_only before ws code_ok (bytes "registered") in
      let (conns, routes) = set_tunnels-maps s1.broker a ids in
      (
        send_control_response codecs before ws code_ok (bytes "registered"),
        ap (λ (z : Server). z.registry) same,
        ap (λ (z : Server). z.broker.connections) same ∙ conns,
        ap (λ (z : Server). z.broker.subdomain_to_conn) same ∙ routes,
        ap (λ (z : Server). z.auth) same,
        ap (λ (z : Server). z.metrics) same,
        rw (accept_lem s ws reg token, e),
      )

  -- The state behind an accepted handshake: that of the registration loop, up to what was sent and
  -- the connection's own list of tunnels.
  pub record Served (s s' : Server) (ws a : ℕ) (reg : Register) (token : Token) (conn_id : Bytes)
      (ids : List Bytes) : Type 0 where
    pub looped_to : Server
    pub tunnels :
        With (joined s conn_id token.user_id ws) looped_to conn_id (map subdomain_of reg.tunnels)
    pub registry : s'.registry ≡ looped_to.registry
    pub connections : s'.broker.connections ≡ looped_to.broker.connections
    pub routes : s'.broker.subdomain_to_conn ≡ looped_to.broker.subdomain_to_conn
    pub auth : s'.auth ≡ looped_to.auth
    pub metrics : s'.metrics ≡ looped_to.metrics
    pub named : conn_id ≡ choose_conn_id reg.client_id (clock 1)
    pub at : a ≡ s.broker.heap.next
    pub listed : ids ≡ map (tunnel_id conn_id) (map subdomain_of reg.tunnels)

  pub accept-Served :
      (s s' : Server) (ws a : ℕ) (reg : Register) (token : Token) (conn_id : Bytes)
      (ids : List Bytes)
      → accept codecs clock s ws reg token ≡ (s', serving a conn_id ids)
      → Served s s' ws a reg token conn_id ids
  unfolding finish_registration
  accept-Served s s' ws a reg token conn_id ids h = elim (outcome s ws reg token) [
    | inl (s1, e, w) ↦
        let cid = c s ws reg token in
        let subs = map subdomain_of reg.tunnels in
        let at = (add_connection s.broker cid token.user_id ws).1 in
        let (t, e1, e2, e3, e4, e5, made) = finished s s1 ws reg token subs e in
        let whole : ◌≡◌ {A = Server × Handshake} (s', serving a conn_id ids)
            (t, serving at cid (map (tunnel_id cid) subs)) =
          sym h ∙ made in
        let same_state : s' ≡ t = cc in
        let same_id : conn_id ≡ cid = cc in
        let same_ids : ids ≡ map (tunnel_id cid) subs = cc in
        let same_at : a ≡ at = cc in
        record {
          looped_to = s1;
          tunnels = rw same_id w;
          registry = rw same_state e1;
          connections = rw same_state e2;
          routes = rw same_state e3;
          auth = rw same_state e4;
          metrics = rw same_state e5;
          named = same_id;
          at = same_at ∙ unfold add_connection in refl;
          listed = rw same_id same_ids;
        }
    | inr (s1, subs, message, e, w) ↦ let k = rw (accept_lem s ws reg token, e) at h in cc
  ]

  -- Where the gateway does not know the connection's id yet and routes no subdomain that is free, a
  -- client that is accepted and whose connection then ends leaves the gateway as it was.
  pub connect_disconnect :
      (s s' : Server) (ws a : ℕ) (reg : Register) (token : Token) (conn_id : Bytes)
      (ids : List Bytes)
      → IsFresh s (choose_conn_id reg.client_id (clock 1))
      → accept codecs clock s ws reg token ≡ (s', serving a conn_id ids)
      → SameGateway s (cleanup_connection s' conn_id ids)
  connect_disconnect s s' ws a reg token conn_id ids f h =
      let v = accept-Served s s' ws a reg token conn_id ids h in
      rw v.listed (
        undo s v.looped_to s' conn_id token.user_id ws (map subdomain_of reg.tunnels) (rw v.named f)
          v.tunnels v.registry v.connections v.routes v.auth v.metrics)
