-- ===== src/Server/Undo.antt =====
-- cleanupConnection undoes what the registration loop of handleConnect has done.
use go_tunnel.Base.{
  ℕ, Bytes, true, Option, none, some, List, [], ◌∷◌, ◌++◌, map, arith, ◌≡◌, ◌≢◌, refl, ap, sym, ◌∙◌,
  inl, inr, Option-cases, Bool-cases, bytes_eq, nat_eq, bytes_beq_iff, ◌==◌, if◌then◌else◌, All,
}
use go_tunnel.Base.Int.{ℤ, pos, ◌+ℤ◌, ◌-ℤ◌}
use go_tunnel.Base.Member.{contains}
use go_tunnel.GoMap
use go_tunnel.GoMap.Assoc.{unless}
use go_tunnel.Broker.{Broker, add_connection, remove_connection, routes_to, set_tunnels}
use go_tunnel.Broker.Routes.{remove_connection-maps}
use go_tunnel.Metrics.{MetricCall, active_tunnels, inc_active_tunnels, dec_active_tunnels}
use go_tunnel.Server.{Server, cleanup_tunnels, cleanup_connection, write_message}
use go_tunnel.Server.Connect.{tunnel_id}
use go_tunnel.Server.CleanUp.{Holds, Without, cleanup_tunnels-Without}
use go_tunnel.Server.Registered.{With}

-- The two states have the same tunnels, subdomains, routes, connections and tokens, and show the
-- same number of active tunnels.
pub record SameGateway (s s' : Server) : Type 0 where
  pub tunnels : (k : Bytes) → GoMap.get s'.registry.tunnels k ≡ GoMap.get s.registry.tunnels k
  pub index :
      (sub : Bytes)
      → GoMap.get s'.registry.subdomain_index sub ≡ GoMap.get s.registry.subdomain_index sub
  pub routes :
      (sub : Bytes)
      → GoMap.get s'.broker.subdomain_to_conn sub ≡ GoMap.get s.broker.subdomain_to_conn sub
  pub connections :
      (k : Bytes) → GoMap.get s'.broker.connections k ≡ GoMap.get s.broker.connections k
  pub auth : s'.auth ≡ s.auth
  pub gauge : active_tunnels s'.metrics ≡ active_tunnels s.metrics

-- The gateway knows nothing of the connection's id yet, and routes no subdomain that is free.
pub record IsFresh (s : Server) (c : Bytes) : Type 0 where
  pub no_connection : GoMap.get s.broker.connections c ≡ none
  pub no_route : (sub : Bytes) → GoMap.get s.broker.subdomain_to_conn sub ≢ some c
  pub no_tunnel : (sub : Bytes) → GoMap.get s.registry.tunnels (tunnel_id c sub) ≡ none
  pub free_unrouted :
      (sub : Bytes)
      → GoMap.get s.registry.subdomain_index sub ≡ none
      → GoMap.get s.broker.subdomain_to_conn sub ≡ none

inc_dec : (z : ℤ) → z +ℤ pos 1 -ℤ pos 1 ≡ z
unfolding ◌+ℤ◌ ◌-ℤ◌
inc_dec z = ground arith

dec_inc : (z : ℤ) → z -ℤ pos 1 +ℤ pos 1 ≡ z
unfolding ◌+ℤ◌ ◌-ℤ◌
dec_inc z = ground arith

gauge_shift :
    (subs : List Bytes) (ms : List MetricCall)
    → active_tunnels (map (λ _. dec_active_tunnels) subs ++ inc_active_tunnels ∷ ms)
      ≡ active_tunnels (map (λ _. dec_active_tunnels) subs ++ ms) +ℤ pos 1
unfolding active_tunnels
gauge_shift [] ms = refl
gauge_shift (x ∷ subs) ms =
    let rest = active_tunnels (map (λ _. dec_active_tunnels) subs ++ ms) in
    ap (λ z. z -ℤ pos 1) (gauge_shift subs ms) ∙ inc_dec rest ∙ sym (dec_inc rest)

-- As many decrements as increments.
gauge_back :
    (subs : List Bytes) (ms : List MetricCall)
    → active_tunnels
        (map (λ _. dec_active_tunnels) subs ++ (map (λ _. inc_active_tunnels) subs ++ ms))
      ≡ active_tunnels ms
unfolding active_tunnels
gauge_back [] ms = refl
gauge_back (x ∷ subs) ms =
    let rest = map (λ _. inc_active_tunnels) subs ++ ms in
    ap (λ z. z -ℤ pos 1) (gauge_shift subs rest) ∙ inc_dec _ ∙ gauge_back subs ms

-- The connection c has been added to s.
abbrev pub joined : Server → Bytes → Bytes → ℕ → Server
joined s c user ws = record s { broker = (add_connection s.broker c user ws).0 }

All-of :
    (P : Bytes → Type 0) (xs : List Bytes) → ((x : Bytes) → contains xs x ≡ true → P x) → All P xs
All-of P [] h = tt
All-of P (x ∷ xs) h =
    (h x (ground (arith, bytes_beq_iff x x)), All-of P xs (λ y m. h y (ground arith)))

-- Another state that the clean-up cannot tell from one that holds the tunnels.
tunnels_gone :
    (s0 s t : Server) (c : Bytes) (subs : List Bytes)
    → t.registry ≡ s.registry
    → With s0 s c subs
    → Without t (cleanup_tunnels t (map (tunnel_id c) subs)) c subs
tunnels_gone s0 s t c subs e1 w =
    cleanup_tunnels-Without t c subs w.distinct
      (All-of (Holds t c) subs (λ x m. rw e1 (w.held x m)))

pub own_none :
    (s : Server) (c : Bytes)
    → IsFresh s c
    → (subs : List Bytes) (k : Bytes) → contains (map (tunnel_id c) subs) k ≡ true
    → GoMap.get s.registry.tunnels k ≡ none
own_none s c f [] k own = cc
own_none s c f (x ∷ subs) k own = elim (Bool-cases (tunnel_id c x == k)) [
  | inl this ↦ ground (arith, f.no_tunnel x, bytes_beq_iff (tunnel_id c x) k)
  | inr later ↦ own_none s c f subs k (ground arith)
]

-- A route that was there is not one of the new connection.
kept_route :
    (s : Server) (c : Bytes)
    → IsFresh s c
    → (sub : Bytes)
    → unless (routes_to c) sub (GoMap.get s.broker.subdomain_to_conn sub)
      ≡ GoMap.get s.broker.subdomain_to_conn sub
kept_route s c f sub = elim (Option-cases (GoMap.get s.broker.subdomain_to_conn sub)) [
  | inl gone ↦ rw gone
  | inr (cid, e) ↦ ground (arith, f.no_route sub, bytes_beq_iff cid c)
]

pub undo :
    (s s1 t : Server) (c user : Bytes) (ws : ℕ) (subs : List Bytes)
    → IsFresh s c
    → With (joined s c user ws) s1 c subs
    → t.registry ≡ s1.registry
    → t.broker.connections ≡ s1.broker.connections
    → t.broker.subdomain_to_conn ≡ s1.broker.subdomain_to_conn
    → t.auth ≡ s1.auth
    → t.metrics ≡ s1.metrics
    → SameGateway s (cleanup_connection t c (map (tunnel_id c) subs))
unfolding cleanup_connection add_connection
undo s s1 t c user ws subs f w e1 e2 e3 e4 e5 = record {
  tunnels = λ k. elim (Bool-cases (contains (map (tunnel_id c) subs) k)) [
    | inl own ↦ ground (arith, gone.tunnels k, own_none s c f subs k own)
    | inr other ↦ ground (arith, gone.tunnels k, w.other_tunnels k other, e1)
  ];
  index = λ sub. elim (Bool-cases (contains subs sub)) [
    | inl own ↦ ground (arith, gone.index sub, w.free sub own)
    | inr other ↦ ground (arith, gone.index sub, w.other_index sub other, e1)
  ];
  routes = λ sub. removed.1 sub ∙ elim (Bool-cases (contains subs sub)) [
    | inl own ↦ ground (arith, gone.routes sub, w.free sub own, f.free_unrouted sub)
    | inr other ↦
        ground (arith, gone.routes sub, w.other_routes sub other, e3, kept_route s c f sub)
  ];
  connections = λ k.
      removed.0 k
      ∙ ground (
        arith,
        gone.connections,
        e2,
        w.connections,
        GoMap.get-put s.broker.connections c k s.broker.heap.next,
        bytes_beq_iff c k,
        f.no_connection,
      );
  auth = gone.auth ∙ e4 ∙ w.auth;
  gauge =
      ap active_tunnels
        (gone.metrics ∙ ap (λ l. map (λ _. dec_active_tunnels) subs ++ l) (e5 ∙ w.metrics))
      ∙ gauge_back subs s.metrics;
}
  where
    t' : Server
    t' = cleanup_tunnels t (map (tunnel_id c) subs)

    gone : Without t t' c subs
    gone = tunnels_gone (joined s c user ws) s1 t c subs e1 w

    here : GoMap.get t'.broker.connections c ≡ some s.broker.heap.next
    here = ground (
      arith,
      gone.connections,
      e2,
      w.connections,
      GoMap.get-put s.broker.connections c c s.broker.heap.next,
      bytes_beq_iff c c,
    )

    removed :
        ((cid : Bytes)
          → GoMap.get (remove_connection t'.broker c).connections cid
            ≡ (if c == cid then none else GoMap.get t'.broker.connections cid))
        × ((sub : Bytes)
            → GoMap.get (remove_connection t'.broker c).subdomain_to_conn sub
              ≡ unless (routes_to c) sub (GoMap.get t'.broker.subdomain_to_conn sub))
    removed = remove_connection-maps t'.broker c s.broker.heap.next here

pub write_only :
    (s : Server) (ws : ℕ) (o : Option Bytes)
    → (l : List (ℕ × Bytes)) × (write_message s ws o ≡ record s { sent = l })
write_only s ws none = (s.sent, refl)
write_only s ws (some frame) = ((ws, frame) ∷ s.sent, refl)

pub set_tunnels-maps :
    (b : Broker) (a : ℕ) (ids : List Bytes)
    → ((set_tunnels b a ids).connections ≡ b.connections)
      × ((set_tunnels b a ids).subdomain_to_conn ≡ b.subdomain_to_conn)
unfolding set_tunnels
set_tunnels-maps b a ids = ground arith
