-- ===== src/Registry/Lookup.antt =====
-- What the registry's lookups return, and which registrations are refused.
use go_tunnel.Base.{
  Bytes, false, none, some, arith, ◌≡◌, ◌≢◌, bytes_eq, ◌⊎◌, ◌↔◌, inl, inr, Option-cases,
}
use go_tunnel.Base.Result.{ok, err}
use go_tunnel.GoMap
use go_tunnel.GoMap.{GoMap, map_laws}
use go_tunnel.Registry.{
  Tunnel, MemoryRegistry, tunnel_not_found, register, get_by_id, get_by_subdomain, too_long,
}
use go_tunnel.Registry.Invariant.{Inv}

-- A lookup by subdomain in a well-formed registry never returns a nil tunnel without an error: it
-- fails, or returns a tunnel of that subdomain, which is also what its id leads to.
pub get_by_subdomain_lem :
    (r : MemoryRegistry) (s : Bytes)
    → Inv r
    → (get_by_subdomain r s ≡ err tunnel_not_found)
      ⊎ ((t : Tunnel) × (get_by_subdomain r s ≡ ok (some t))
          × (t.subdomain ≡ s)
          × (get_by_id r t.id ≡ ok t))
unfolding get_by_subdomain get_by_id
get_by_subdomain_lem r s v = elim (Option-cases (GoMap.get r.subdomain_index s)) [
  | inl missing ↦ inl (ground arith)
  | inr (id, e) ↦
      let (t, found, same) = v.resolved s id e in
      let (own, _) = v.indexed id t found in inr (t, ground arith, same, ground arith)
]

-- In a well-formed registry, two tunnels that GetByID finds never share a subdomain.
pub subdomain-injective :
    (r : MemoryRegistry) (t u : Tunnel)
    → Inv r
    → get_by_id r t.id ≡ ok t
    → get_by_id r u.id ≡ ok u
    → t.subdomain ≡ u.subdomain
    → t ≡ u
unfolding get_by_id
subdomain-injective r t u v ht hu same = ground (arith, v.indexed t.id t, v.indexed u.id u)

-- A registration succeeds exactly if the subdomain is not reserved, fits the length limit and is
-- free; one that fails leaves the registry as it was.
pub register_iff :
    (r : MemoryRegistry) (t : Tunnel)
    → (((register r t).1 ≡ none) ↔ (
        (GoMap.get r.reserved_subdomains t.subdomain ≡ none)
        × (too_long r t.subdomain ≡ false)
        × (GoMap.get r.subdomain_index t.subdomain ≡ none)))
      × ((register r t).1 ≢ none → (register r t).0 ≡ r)
unfolding register
register_iff r t = ((λ h. ground arith, λ h. ground arith), λ h. ground arith)
