-- ===== src/Server/CleanUp.antt =====
-- What cleanupConnection takes away, tunnel by tunnel.
use go_tunnel.Base.{
  Bytes, false, none, some, List, [], ◌∷◌, ◌++◌, map, arith, ◌≡◌, refl, ap, ◌∙◌, bytes_eq,
  bytes_beq_iff, ◌==◌, if◌then◌else◌, All, inl, inr, Bool-cases,
}
use go_tunnel.Base.Member.{contains, Distinct}
use go_tunnel.GoMap
use go_tunnel.GoMap.{GoMap}
use go_tunnel.Registry.{Tunnel, get_by_id, unregister, remove_tunnel}
use go_tunnel.Broker.{unmap_subdomain}
use go_tunnel.Metrics.{MetricCall, dec_active_tunnels}
use go_tunnel.Server.{Server, count, unmap_tunnel, drop_tunnel, cleanup_tunnels}
use go_tunnel.Server.Connect.{tunnel_id}

-- The state after a round of the clean-up that found the tunnel.
abbrev pub dropped : Server → Bytes → Tunnel → Server
dropped s id t =
    count
      (record s {
        registry = remove_tunnel s.registry id t;
        broker = unmap_subdomain s.broker t.subdomain;
      })
      dec_active_tunnels

pub cleanup_round :
    (s : Server) (id : Bytes) (t : Tunnel)
    → GoMap.get s.registry.tunnels id ≡ some t
    → drop_tunnel (unmap_tunnel s id) id ≡ dropped s id t
unfolding drop_tunnel unmap_tunnel get_by_id unregister
cleanup_round s id t e = ground arith

-- The registry holds a tunnel of each subdomain under the connection's id for it.
abbrev pub Holds : Server → Bytes → Bytes → Type 0
Holds s conn_id sub =
    (t : Tunnel) × (GoMap.get s.registry.tunnels (tunnel_id conn_id sub) ≡ some t)
    × (t.subdomain ≡ sub)

-- s' is s without the tunnels of the connection for the subdomains.
pub record Without (s s' : Server) (conn_id : Bytes) (subs : List Bytes) : Type 0 where
  pub tunnels :
      (k : Bytes)
      → GoMap.get s'.registry.tunnels k ≡ (
          if contains (map (tunnel_id conn_id) subs) k
          then none
          else GoMap.get s.registry.tunnels k)
  pub index :
      (sub : Bytes)
      → GoMap.get s'.registry.subdomain_index sub
        ≡ (if contains subs sub then none else GoMap.get s.registry.subdomain_index sub)
  pub routes :
      (sub : Bytes)
      → GoMap.get s'.broker.subdomain_to_conn sub
        ≡ (if contains subs sub then none else GoMap.get s.broker.subdomain_to_conn sub)
  pub connections : s'.broker.connections ≡ s.broker.connections
  pub heap : s'.broker.heap ≡ s.broker.heap
  pub reserved : s'.registry.reserved_subdomains ≡ s.registry.reserved_subdomains
  pub auth : s'.auth ≡ s.auth
  pub metrics : s'.metrics ≡ map (λ _. dec_active_tunnels) subs ++ s.metrics

pub tunnel_id-injective : (c s t : Bytes) → tunnel_id c s ≡ tunnel_id c t → s ≡ t
unfolding tunnel_id
tunnel_id-injective [] s t e = cc
tunnel_id-injective (x ∷ c) s t e = tunnel_id-injective c s t (cc)

pub contains-tunnel_id :
    (c : Bytes) (subs : List Bytes) (s : Bytes)
    → contains (map (tunnel_id c) subs) (tunnel_id c s) ≡ contains subs s
contains-tunnel_id c [] s = refl
contains-tunnel_id c (t ∷ subs) s = elim (Bool-cases (t == s)) [
  | inl same ↦ ground (
    arith,
    bytes_beq_iff (tunnel_id c t) (tunnel_id c s),
    ap (tunnel_id c) ((bytes_beq_iff t s).0 same),
  )
  | inr other ↦ elim (Bool-cases (tunnel_id c t == tunnel_id c s)) [
    | inl clash ↦
        let same = tunnel_id-injective c t s ((bytes_beq_iff _ _).0 clash) in
        ground (arith, bytes_beq_iff t s)
    | inr apart ↦ rw (other, apart) (contains-tunnel_id c subs s)
  ]
]

-- Dropping the tunnel of one subdomain leaves those of the others.
All-Holds-dropped :
    (s : Server) (c sub : Bytes) (t : Tunnel) (subs : List Bytes)
    → contains subs sub ≡ false
    → All (Holds s c) subs
    → All (Holds (dropped s (tunnel_id c sub) t) c) subs
unfolding remove_tunnel
All-Holds-dropped s c sub t [] out all = tt
All-Holds-dropped s c sub t (x ∷ subs) out all =
    let (u, held, named) = all.0 in
    (
      (
        u,
        ground (
          arith,
          GoMap.get-delete s.registry.tunnels (tunnel_id c sub) (tunnel_id c x),
          contains-tunnel_id c (x ∷ []) sub,
          bytes_beq_iff (tunnel_id c sub) (tunnel_id c x),
          bytes_beq_iff (tunnel_id c x) (tunnel_id c sub),
        ),
        named,
      ),
      All-Holds-dropped s c sub t subs (ground arith) all.1,
    )

dec_shift :
    (subs : List Bytes) (ms : List MetricCall)
    → map (λ _. dec_active_tunnels) subs ++ dec_active_tunnels ∷ ms
      ≡ dec_active_tunnels ∷ (map (λ _. dec_active_tunnels) subs ++ ms)
dec_shift [] ms = refl
dec_shift (sub ∷ subs) ms = ap (λ l. dec_active_tunnels ∷ l) (dec_shift subs ms)

cleanup_tunnels-cons :
    (s : Server) (id : Bytes) (t : Tunnel) (rest : List Bytes)
    → GoMap.get s.registry.tunnels id ≡ some t
    → cleanup_tunnels s (id ∷ rest) ≡ cleanup_tunnels (dropped s id t) rest
unfolding cleanup_tunnels
cleanup_tunnels-cons s id t rest e = ap (λ z. cleanup_tunnels z rest) (cleanup_round s id t e)

cleanup_tunnels-nil : (s : Server) → cleanup_tunnels s [] ≡ s
unfolding cleanup_tunnels
cleanup_tunnels-nil s = refl

-- One tunnel dropped, and then more.
prepend :
    (s s' : Server) (c sub : Bytes) (t : Tunnel) (subs : List Bytes)
    → t.subdomain ≡ sub
    → Without (dropped s (tunnel_id c sub) t) s' c subs
    → Without s s' c (sub ∷ subs)
unfolding remove_tunnel unmap_subdomain
prepend s s' c sub t subs named w = record {
  tunnels =
      λ k. ground (arith, w.tunnels k, GoMap.get-delete s.registry.tunnels (tunnel_id c sub) k);
  index = λ k. ground (arith, w.index k, GoMap.get-delete s.registry.subdomain_index sub k);
  routes = λ k. ground (arith, w.routes k, GoMap.get-delete s.broker.subdomain_to_conn sub k);
  connections = w.connections;
  heap = w.heap;
  reserved = w.reserved;
  auth = w.auth;
  metrics = w.metrics ∙ dec_shift subs s.metrics;
}

pub cleanup_tunnels-Without :
    (s : Server) (c : Bytes) (subs : List Bytes)
    → Distinct subs
    → All (Holds s c) subs
    → Without s (cleanup_tunnels s (map (tunnel_id c) subs)) c subs
cleanup_tunnels-Without s c [] d all = rw cleanup_tunnels-nil (record {
  tunnels = λ k. refl;
  index = λ k. refl;
  routes = λ k. refl;
  connections = refl;
  heap = refl;
  reserved = refl;
  auth = refl;
  metrics = refl;
})
cleanup_tunnels-Without s c (sub ∷ subs) d all =
    let (t, held, named) = all.0 in
    let id = tunnel_id c sub in
    rw (cleanup_tunnels-cons s id t (map (tunnel_id c) subs) held) (
      prepend s (cleanup_tunnels (dropped s id t) (map (tunnel_id c) subs)) c sub t subs named (
        cleanup_tunnels-Without (dropped s id t) c subs d.1
          (All-Holds-dropped s c sub t subs d.0 all.1)))
