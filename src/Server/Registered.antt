-- ===== src/Server/Registered.antt =====
-- The registration loop: what the gateway holds when the tunnels of some subdomains have been
-- registered for a new connection.
use go_tunnel.Base.{
  Bytes, true, false, none, some, List, [], ◌∷◌, ◌++◌, map, arith, ◌≡◌, refl, ap, sym, ◌∙◌,
  bytes_eq, bytes_beq_iff, ◌==◌, ◌||◌, inl, inr, Bool-cases,
}
use go_tunnel.Base.Member.{contains, Distinct, contains-append, Distinct-snoc}
use mathlib.Core.List.{map-append}
use go_tunnel.GoMap
use go_tunnel.GoMap.{GoMap}
use go_tunnel.Registry.{Tunnel, insert_tunnel}
use go_tunnel.Broker.{map_subdomain}
use go_tunnel.Metrics.{MetricCall, inc_active_tunnels}
use go_tunnel.Server.{Server}
use go_tunnel.Server.Connect.{tunnel_id, added}
use go_tunnel.Server.CleanUp.{Holds, tunnel_id-injective}

-- s is s0 with the tunnels of the connection c for the subdomains.
pub record With (s0 s : Server) (c : Bytes) (subs : List Bytes) : Type 0 where
  pub distinct : Distinct subs
  pub held : (sub : Bytes) → contains subs sub ≡ true → Holds s c sub
  pub indexed :
      (sub : Bytes)
      → contains subs sub ≡ true
      → GoMap.get s.registry.subdomain_index sub ≡ some (tunnel_id c sub)
  pub routed :
      (sub : Bytes) → contains subs sub ≡ true → GoMap.get s.broker.subdomain_to_conn sub ≡ some c
  pub free :
      (sub : Bytes) → contains subs sub ≡ true → GoMap.get s0.registry.subdomain_index sub ≡ none
  pub other_tunnels :
      (k : Bytes)
      → contains (map (tunnel_id c) subs) k ≡ false
      → GoMap.get s.registry.tunnels k ≡ GoMap.get s0.registry.tunnels k
  pub other_index :
      (sub : Bytes)
      → contains subs sub ≡ false
      → GoMap.get s.registry.subdomain_index sub ≡ GoMap.get s0.registry.subdomain_index sub
  pub other_routes :
      (sub : Bytes)
      → contains subs sub ≡ false
      → GoMap.get s.broker.subdomain_to_conn sub ≡ GoMap.get s0.broker.subdomain_to_conn sub
  pub connections : s.broker.connections ≡ s0.broker.connections
  pub heap : s.broker.heap ≡ s0.broker.heap
  pub reserved : s.registry.reserved_subdomains ≡ s0.registry.reserved_subdomains
  pub auth : s.auth ≡ s0.auth
  pub metrics : s.metrics ≡ map (λ _. inc_active_tunnels) subs ++ s0.metrics

pub With-nil : (s : Server) (c : Bytes) → With s s c []
With-nil s c = record {
  distinct = tt;
  held = λ sub h. cc;
  indexed = λ sub h. cc;
  routed = λ sub h. cc;
  free = λ sub h. cc;
  other_tunnels = λ k h. refl;
  other_index = λ sub h. refl;
  other_routes = λ sub h. refl;
  connections = refl;
  heap = refl;
  reserved = refl;
  auth = refl;
  metrics = refl;
}

-- The tunnel of one more subdomain, that was free.
abbrev one_more : Server → Bytes → Tunnel → Server
one_more s c t = added s (insert_tunnel s.registry t) c t.subdomain

inc_shift :
    (subs : List Bytes) (sub : Bytes) (ms : List MetricCall)
    → inc_active_tunnels ∷ (map (λ _. inc_active_tunnels) subs ++ ms)
      ≡ map (λ _. inc_active_tunnels) (subs ++ sub ∷ []) ++ ms
inc_shift [] sub ms = refl
inc_shift (x ∷ subs) sub ms = ap (λ l. inc_active_tunnels ∷ l) (inc_shift subs sub ms)

contains-map-snoc :
    (c sub k : Bytes) (subs : List Bytes)
    → contains (map (tunnel_id c) (subs ++ sub ∷ [])) k
      ≡ (contains (map (tunnel_id c) subs) k || (tunnel_id c sub == k || false))
contains-map-snoc c sub k subs =
    rw (map-append (tunnel_id c) subs (sub ∷ []))
      (contains-append (map (tunnel_id c) subs) (tunnel_id c sub ∷ []) k)

pub With-snoc :
    (s0 s : Server) (c : Bytes) (t : Tunnel) (subs : List Bytes)
    → t.id ≡ tunnel_id c t.subdomain
    → GoMap.get s.registry.subdomain_index t.subdomain ≡ none
    → With s0 s c subs
    → With s0 (one_more s c t) c (subs ++ t.subdomain ∷ [])
unfolding added insert_tunnel map_subdomain
With-snoc s0 s c t subs named vacant w = record {
  distinct = Distinct-snoc subs t.subdomain out w.distinct;
  held = λ sub h. elim (Bool-cases (t.subdomain == sub)) [
    | inl new ↦ (
      t,
      ground (
        arith,
        GoMap.get-put s.registry.tunnels t.id (tunnel_id c sub) t,
        bytes_beq_iff t.subdomain sub,
        bytes_beq_iff t.id (tunnel_id c sub),
        ap (tunnel_id c) ((bytes_beq_iff t.subdomain sub).0 new),
      ),
      (bytes_beq_iff t.subdomain sub).0 new,
    )
    | inr old ↦
        let (u, there, same) = w.held sub (ground (arith, more sub)) in
        elim (Bool-cases (t.id == tunnel_id c sub)) [
          | inl clash ↦
              let again =
                tunnel_id-injective c t.subdomain sub (sym named ∙ (bytes_beq_iff _ _).0 clash) in
              let no : ⊥ = ground (arith, bytes_beq_iff t.subdomain sub) in absurd no
          | inr apart ↦
              (u, ground (arith, GoMap.get-put s.registry.tunnels t.id (tunnel_id c sub) t), same)
        ]
  ];
  indexed = λ sub h. ground (
    arith,
    GoMap.get-put s.registry.subdomain_index t.subdomain sub t.id,
    bytes_beq_iff t.subdomain sub,
    w.indexed sub,
    more sub,
  );
  routed = λ sub h.
      ground
        (arith, GoMap.get-put s.broker.subdomain_to_conn t.subdomain sub c, w.routed sub, more sub);
  free = λ sub h.
      ground
        (arith, w.free sub, w.other_index t.subdomain out, bytes_beq_iff t.subdomain sub, more sub);
  other_tunnels = λ k h. ground (
    arith,
    w.other_tunnels k,
    GoMap.get-put s.registry.tunnels t.id k t,
    contains-map-snoc c t.subdomain k subs,
    named,
  );
  other_index = λ sub h. ground (
    arith,
    w.other_index sub,
    GoMap.get-put s.registry.subdomain_index t.subdomain sub t.id,
    more sub,
  );
  other_routes = λ sub h. ground (
    arith,
    w.other_routes sub,
    GoMap.get-put s.broker.subdomain_to_conn t.subdomain sub c,
    more sub,
  );
  connections = w.connections;
  heap = w.heap;
  reserved = w.reserved;
  auth = w.auth;
  metrics = ap (λ l. inc_active_tunnels ∷ l) w.metrics ∙ inc_shift subs t.subdomain s0.metrics;
}
  where
    more :
        (x : Bytes)
        → contains (subs ++ t.subdomain ∷ []) x ≡ (contains subs x || (t.subdomain == x || false))
    more x = contains-append subs (t.subdomain ∷ []) x

    out : contains subs t.subdomain ≡ false
    out = elim (Bool-cases (contains subs t.subdomain)) [
      | inl there ↦ ground (arith, w.indexed t.subdomain there)
      | inr away ↦ away
    ]
