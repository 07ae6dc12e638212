-- ===== src/Registry.antt =====
-- internal/registry/registry.go: the in-memory tunnel registry. Each method returns the new registry
-- and its error, `none` for nil; the time of the call is an argument. A *Tunnel is stored by value:
-- its only writers are Register and UpdateHeartbeat, under the registry's lock.
pub mod Invariant
pub mod Clean
pub mod Expiry
pub mod Lookup
pub mod Listing
pub mod Collision
pub mod Table
pub mod Refine
use go_tunnel.Base.{
  ℕ, suc, Bytes, Bool, ◌&&◌, Option, none, some, List, [], ◌∷◌, map, length, ltb, nat_eq, bytes_eq,
  ◌==◌, if◌then◌else◌,
}
use go_tunnel.Base.Int.{ℤ, pos, negsuc, pos_part, neg_part, ltb_ℤ, int_eq}
use go_tunnel.Base.Lists.{select}
use go_tunnel.Base.Result.{Result, ok, err}
use go_tunnel.GoTime
use go_tunnel.GoMap
use go_tunnel.GoMap.{GoMap}

pub data RegistryError : Type 0 where
  subdomain_reserved subdomain_taken subdomain_too_long tunnel_not_found : RegistryError

pub record Tunnel : Type 0 where
  pub id : Bytes
  pub owner_id : Bytes
  pub subdomain : Bytes
  pub protocol : Bytes
  pub target_port : ℤ
  pub created_at : ℤ
  pub last_heartbeat_at : ℤ
  pub conn_id : Bytes
  pub ttl : ℤ
  pub bandwidth_limit : ℤ

pub record MemoryRegistry : Type 0 where
  pub tunnels : GoMap Bytes Tunnel
  pub subdomain_index : GoMap Bytes Bytes
  pub reserved_subdomains : GoMap Bytes (Unit {0})
  pub max_subdomain_length : ℤ
  pub default_ttl : ℤ

abbrev is_some {ℓ} : {A : Type ℓ} → Option A → Bool
is_some none = Bool.false
is_some (some a) = Bool.true

unfoldable pub reserve_all : List Bytes → GoMap Bytes (Unit {0}) → GoMap Bytes (Unit {0})
reserve_all [] reserved = reserved
reserve_all (s ∷ rest) reserved = reserve_all rest (GoMap.put reserved s tt)

unfoldable pub new_memory_registry : List Bytes → ℤ → ℤ → MemoryRegistry
unfolding reserve_all
new_memory_registry reserved_subdomains max_subdomain_length default_ttl = record {
  tunnels = GoMap.empty;
  subdomain_index = GoMap.empty;
  reserved_subdomains = reserve_all reserved_subdomains GoMap.empty;
  max_subdomain_length = max_subdomain_length;
  default_ttl = default_ttl;
}

-- The guard on the length of a subdomain.
unfoldable pub too_long : MemoryRegistry → Bytes → Bool
too_long r s = ltb_ℤ (pos 0) r.max_subdomain_length && ltb_ℤ r.max_subdomain_length (pos (length s))

-- The tunnel that Register stores: its TTL is the default where it had none.
unfoldable pub with_ttl : MemoryRegistry → Tunnel → Tunnel
with_ttl r tunnel = if tunnel.ttl == pos 0 then record tunnel { ttl = r.default_ttl } else tunnel

unfoldable pub insert_tunnel : MemoryRegistry → Tunnel → MemoryRegistry
insert_tunnel r tunnel = record r {
  tunnels = GoMap.put r.tunnels tunnel.id tunnel;
  subdomain_index = GoMap.put r.subdomain_index tunnel.subdomain tunnel.id;
}

unfoldable pub register : MemoryRegistry → Tunnel → MemoryRegistry × Option RegistryError
register r tunnel =
    if is_some (GoMap.get r.reserved_subdomains tunnel.subdomain)
    then (r, some subdomain_reserved)
    else if too_long r tunnel.subdomain
    then (r, some subdomain_too_long)
    else if is_some (GoMap.get r.subdomain_index tunnel.subdomain)
    then (r, some subdomain_taken)
    else (insert_tunnel r (with_ttl r tunnel), none)

unfoldable pub remove_tunnel : MemoryRegistry → Bytes → Tunnel → MemoryRegistry
remove_tunnel r id t = record r {
  subdomain_index = GoMap.delete r.subdomain_index t.subdomain;
  tunnels = GoMap.delete r.tunnels id;
}

unfoldable pub unregister : MemoryRegistry → Bytes → MemoryRegistry × Option RegistryError
unregister r id = elim (GoMap.get r.tunnels id) [
  | none ↦ (r, some tunnel_not_found)
  | some t ↦ (remove_tunnel r id t, none)
]

unfoldable pub get_by_id : MemoryRegistry → Bytes → Result RegistryError Tunnel
get_by_id r id = elim (GoMap.get r.tunnels id) [ none ↦ err tunnel_not_found | some t ↦ ok t ]

-- The pointer that is returned is nil, `none`, where the index names a tunnel that is not there.
unfoldable pub get_by_subdomain : MemoryRegistry → Bytes → Result RegistryError (Option Tunnel)
get_by_subdomain r subdomain = elim (GoMap.get r.subdomain_index subdomain) [
  | none ↦ err tunnel_not_found
  | some id ↦ ok (GoMap.get r.tunnels id)
]

abbrev pub tunnel_of : Bytes × Tunnel → Tunnel
tunnel_of (id, t) = t

unfoldable pub list : MemoryRegistry → List Tunnel
list r = map tunnel_of (GoMap.range r.tunnels)

unfoldable pub get_by_owner : MemoryRegistry → Bytes → List Tunnel
unfolding list
get_by_owner r owner_id = select (λ t. t.owner_id == owner_id) (list r)

unfoldable pub get_by_conn_id : MemoryRegistry → Bytes → List Tunnel
unfolding list
get_by_conn_id r conn_id = select (λ t. t.conn_id == conn_id) (list r)

unfoldable pub update_heartbeat : MemoryRegistry → Bytes → ℤ → MemoryRegistry × Option RegistryError
update_heartbeat r id now = elim (GoMap.get r.tunnels id) [
  | none ↦ (r, some tunnel_not_found)
  | some t ↦
      (record r { tunnels = GoMap.put r.tunnels id (record t { last_heartbeat_at = now }) }, none)
]

unfoldable pub is_subdomain_reserved : MemoryRegistry → Bytes → Bool
is_subdomain_reserved r subdomain = is_some (GoMap.get r.reserved_subdomains subdomain)

-- The test of CleanExpired.
unfoldable pub is_expired : ℤ → Tunnel → Bool
is_expired now t =
    ltb_ℤ (pos 0) t.ttl
    && ltb_ℤ (GoTime.duration t.ttl GoTime.second) (GoTime.sub now t.last_heartbeat_at)

-- The loop of CleanExpired over the entries that are still to come.
unfoldable pub clean_loop : ℤ → List (Bytes × Tunnel) → MemoryRegistry → ℕ → MemoryRegistry × ℕ
unfolding remove_tunnel
clean_loop now [] r count = (r, count)
clean_loop now ((id, t) ∷ rest) r count =
    clean_loop now rest (if is_expired now t then remove_tunnel r id t else r)
      (if is_expired now t then suc count else count)

unfoldable pub clean_expired : MemoryRegistry → ℤ → MemoryRegistry × ℕ
unfolding clean_loop
clean_expired r now = clean_loop now (GoMap.range r.tunnels) r 0
