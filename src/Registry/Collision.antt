-- ===== src/Registry/Collision.antt =====
-- What goes wrong when a tunnel is registered under an id that is already in use. (Invariant shows
-- that nothing does otherwise.)
use go_tunnel.Base.{Bytes, none, some, arith, ◌≡◌, ◌≢◌, bytes_eq, bytes_beq_iff, inl, inr}
use go_tunnel.Base.Result.{ok}
use go_tunnel.GoMap
use go_tunnel.GoMap.{GoMap}
use go_tunnel.Registry.{
  Tunnel, MemoryRegistry, with_ttl, insert_tunnel, register, remove_tunnel, unregister,
  get_by_subdomain,
}
use go_tunnel.Registry.Invariant.{Inv, with_ttl-fields, register-cases}

collision_at :
    (r : MemoryRegistry) (old u : Tunnel) (k : Bytes)
    → Inv r
    → u.id ≡ k
    → GoMap.get r.tunnels k ≡ some old
    → old.subdomain ≢ u.subdomain
    → get_by_subdomain (unregister (insert_tunnel r u) k).0 old.subdomain ≡ ok none
unfolding unregister insert_tunnel remove_tunnel get_by_subdomain
collision_at r old u k v same used other =
    let index = GoMap.put r.subdomain_index u.subdomain u.id in
    let tunnels = GoMap.put r.tunnels u.id u in
    ground (
      arith,
      v.indexed k old used,
      GoMap.get-put r.tunnels u.id k u,
      GoMap.get-put r.subdomain_index u.subdomain old.subdomain u.id,
      GoMap.get-delete index u.subdomain old.subdomain,
      GoMap.get-delete tunnels k k,
      bytes_beq_iff u.id k,
      bytes_beq_iff k k,
      bytes_beq_iff u.subdomain old.subdomain,
    )

-- In a well-formed registry, if the id of a tunnel that is registered successfully belonged to a tunnel of another subdomain,
-- then once the id is unregistered the lookup of the older subdomain succeeds with a nil tunnel.
pub get_by_subdomain-collision :
    (r : MemoryRegistry) (old t : Tunnel)
    → Inv r
    → GoMap.get r.tunnels t.id ≡ some old
    → old.subdomain ≢ t.subdomain
    → (register r t).1 ≡ none
    → get_by_subdomain (unregister (register r t).0 t.id).0 old.subdomain ≡ ok none
get_by_subdomain-collision r old t v used other done = elim (register-cases r t) [
  | inl (e, refused) ↦ cc
  | inr (inserted, _, _, _) ↦
      let (same_id, same_subdomain) = with_ttl-fields r t in
      rw inserted (collision_at r old (with_ttl r t) t.id v same_id used (rw same_subdomain other))
]
