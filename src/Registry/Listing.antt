-- ===== src/Registry/Listing.antt =====
-- The listings: which tunnels List, GetByOwner and GetByConnID return.
use go_tunnel.Base.{
  Bytes, List, [], ◌∷◌, map, arith, ◌≡◌, refl, bytes_eq, bytes_beq_iff, ◌↔◌, inl, inr,
}
use go_tunnel.Base.Lists.{IsIn, select-IsIn, IsIn-select}
use go_tunnel.Base.Result.{ok}
use go_tunnel.GoMap
use go_tunnel.GoMap.{GoMap}
use go_tunnel.GoMap.Assoc.{Contains}
use go_tunnel.Registry.{
  Tunnel, MemoryRegistry, tunnel_of, list, get_by_owner, get_by_conn_id, get_by_id,
}
use go_tunnel.Registry.Invariant.{Inv}

listed :
    (t : Tunnel) (l : List (Bytes × Tunnel))
    → IsIn t (map tunnel_of l)
    → (id : Bytes) × Contains id t l
listed t [] h = absurd h
listed t ((id, u) ∷ l) (inl e) = (id, inl (refl, e))
listed t ((id, u) ∷ l) (inr h) = let (j, c) = listed t l h in (j, inr c)

unlisted :
    (t : Tunnel) (id : Bytes) (l : List (Bytes × Tunnel))
    → Contains id t l
    → IsIn t (map tunnel_of l)
unlisted t id [] c = absurd c
unlisted t id ((j, u) ∷ l) (inl e) = inl e.1
unlisted t id ((j, u) ∷ l) (inr c) = inr (unlisted t id l c)

-- In a well-formed registry, List returns exactly the tunnels that GetByID finds.
list_iff : (r : MemoryRegistry) (t : Tunnel) → Inv r → IsIn t (list r) ↔ (get_by_id r t.id ≡ ok t)
unfolding list get_by_id
list_iff r t v = (
  λ h.
      let (id, c) = listed t (GoMap.range r.tunnels) h in
      let found = GoMap.Contains-get r.tunnels id t c in ground (arith, v.indexed id t found),
  λ h. unlisted t t.id (GoMap.range r.tunnels) (GoMap.get-Contains r.tunnels t.id t (ground arith)),
)

-- In a well-formed registry, GetByOwner returns exactly the tunnels that GetByID finds and that have
-- the owner, and GetByConnID those that have the connection.
pub listings_lem :
    (r : MemoryRegistry) (t : Tunnel) (owner conn : Bytes)
    → Inv r
    → (IsIn t (get_by_owner r owner) ↔ ((get_by_id r t.id ≡ ok t) × (t.owner_id ≡ owner)))
      × (IsIn t (get_by_conn_id r conn) ↔ ((get_by_id r t.id ≡ ok t) × (t.conn_id ≡ conn)))
unfolding get_by_owner get_by_conn_id
listings_lem r t owner conn v = (
  (
    λ h.
        let (there, same) = select-IsIn _ t (list r) h in
        ((list_iff r t v).0 there, (bytes_beq_iff t.owner_id owner).0 same),
    λ h. IsIn-select _ t (list r) ((list_iff r t v).1 h.0) ((bytes_beq_iff t.owner_id owner).1 h.1),
  ),
  (
    λ h.
        let (there, same) = select-IsIn _ t (list r) h in
        ((list_iff r t v).0 there, (bytes_beq_iff t.conn_id conn).0 same),
    λ h. IsIn-select _ t (list r) ((list_iff r t v).1 h.0) ((bytes_beq_iff t.conn_id conn).1 h.1),
  ),
)
