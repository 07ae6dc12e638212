-- ===== src/Registry/Invariant.antt =====
-- The two maps of the registry agree: every tunnel is indexed under its subdomain, and every entry
-- of the index leads to the tunnel that has the subdomain.
use go_tunnel.Base.{
  Bytes, List, false, none, some, arith, ◌≡◌, bytes_eq, bytes_beq_iff, ◌==◌, inl, inr, ◌⊎◌,
  Bool-cases, Option-cases,
}
use go_tunnel.Base.Int.{ℤ, int_eq}
use go_tunnel.GoMap
use go_tunnel.GoMap.{GoMap, map_laws}
use go_tunnel.Registry.{
  Tunnel, MemoryRegistry, new_memory_registry, RegistryError, too_long, with_ttl, insert_tunnel,
  register, remove_tunnel, unregister, update_heartbeat,
}

pub record Inv (r : MemoryRegistry) : Type 0 where
  pub indexed :
      (id : Bytes) (t : Tunnel)
      → GoMap.get r.tunnels id ≡ some t
      → (t.id ≡ id) × (GoMap.get r.subdomain_index t.subdomain ≡ some id)
  pub resolved :
      (s id : Bytes)
      → GoMap.get r.subdomain_index s ≡ some id
      → (t : Tunnel) × (GoMap.get r.tunnels id ≡ some t) × (t.subdomain ≡ s)
  pub allowed :
      (id : Bytes) (t : Tunnel)
      → GoMap.get r.tunnels id ≡ some t
      → (GoMap.get r.reserved_subdomains t.subdomain ≡ none) × (too_long r t.subdomain ≡ false)

-- The fields of a stored tunnel that Register does not touch.
pub with_ttl-fields :
    (r : MemoryRegistry) (t : Tunnel)
    → ((with_ttl r t).id ≡ t.id) × ((with_ttl r t).subdomain ≡ t.subdomain)
unfolding with_ttl
with_ttl-fields r t = ground arith

pub remove_tunnel-Inv :
    (r : MemoryRegistry) (id : Bytes) (t : Tunnel)
    → GoMap.get r.tunnels id ≡ some t
    → Inv r
    → Inv (remove_tunnel r id t)
unfolding remove_tunnel too_long
remove_tunnel-Inv r id t e v = record {
  indexed = λ j u. simp map_laws (λ h. ground (
    arith,
    v.indexed j u,
    v.indexed id t e,
    bytes_beq_iff id j,
    bytes_beq_iff t.subdomain u.subdomain,
  ));
  resolved = λ s j. simp map_laws (λ h.
      let (u, found, same) = v.resolved s j (ground (arith, bytes_beq_iff t.subdomain s)) in
      (u, ground (arith, bytes_beq_iff id j, bytes_beq_iff t.subdomain s), same));
  allowed = λ j u. simp map_laws (λ h. ground (arith, v.allowed j u));
}

insert_tunnel-Inv :
    (r : MemoryRegistry) (t : Tunnel)
    → GoMap.get r.tunnels t.id ≡ none
    → GoMap.get r.subdomain_index t.subdomain ≡ none
    → GoMap.get r.reserved_subdomains t.subdomain ≡ none
    → too_long r t.subdomain ≡ false
    → Inv r
    → Inv (insert_tunnel r t)
unfolding insert_tunnel too_long
insert_tunnel-Inv r t fresh free unreserved short v = record {
  indexed = λ j u. simp map_laws (λ h.
      ground (arith, v.indexed j u, bytes_beq_iff t.id j, bytes_beq_iff t.subdomain u.subdomain));
  resolved = λ s j. simp map_laws (λ h. elim (Bool-cases (t.subdomain == s)) [
    | inl new ↦
        (t, ground (arith, bytes_beq_iff t.id j), ground (arith, bytes_beq_iff t.subdomain s))
    | inr old ↦
        let (u, found, same) = v.resolved s j (ground arith) in
        (u, ground (arith, bytes_beq_iff t.id j), same)
  ]);
  allowed = λ j u. simp map_laws (λ h. ground (arith, v.allowed j u));
}

-- The outcome of a registration: refused, with the registry as it was, or the tunnel inserted with
-- none of the three guards met.
pub register-cases :
    (r : MemoryRegistry) (t : Tunnel)
    → ((e : RegistryError) × (register r t ≡ (r, some e)))
      ⊎ ((register r t ≡ (insert_tunnel r (with_ttl r t), none))
          × (GoMap.get r.reserved_subdomains t.subdomain ≡ none)
          × (too_long r t.subdomain ≡ false)
          × (GoMap.get r.subdomain_index t.subdomain ≡ none))
unfolding register
register-cases r t = elim (Option-cases (register r t).1) [
  | inl done ↦ inr (ground arith)
  | inr (e, refused) ↦ inl (e, ground arith)
]

-- Registering a tunnel under an id that is not in use, whether or not it is refused, keeps the two
-- maps of the registry in agreement.
pub register-Inv :
    (r : MemoryRegistry) (t : Tunnel)
    → GoMap.get r.tunnels t.id ≡ none
    → Inv r
    → Inv (register r t).0
register-Inv r t fresh v = elim (register-cases r t) [
  | inl (e, refused) ↦ rw refused v
  | inr (done, unreserved, short, free) ↦ rw done (
      insert_tunnel-Inv r (with_ttl r t) (ground (arith, with_ttl-fields r t))
        (ground (arith, with_ttl-fields r t)) (ground (arith, with_ttl-fields r t))
        (ground (arith, with_ttl-fields r t)) v)
]

pub unregister-Inv : (r : MemoryRegistry) (id : Bytes) → Inv r → Inv (unregister r id).0
unfolding unregister
unregister-Inv r id v = elim (Option-cases (GoMap.get r.tunnels id)) [
  | inl gone ↦ rw (gone, unregister) v
  | inr (t, e) ↦ rw (e, unregister) (remove_tunnel-Inv r id t e v)
]

abbrev beat : MemoryRegistry → Bytes → Tunnel → ℤ → MemoryRegistry
beat r id t now = record r {
  tunnels = GoMap.put r.tunnels id (record t { last_heartbeat_at = now });
}

beat-Inv :
    (r : MemoryRegistry) (id : Bytes) (t : Tunnel) (now : ℤ)
    → GoMap.get r.tunnels id ≡ some t
    → Inv r
    → Inv (beat r id t now)
unfolding too_long
beat-Inv r id t now e v = record {
  indexed = λ j u.
      simp map_laws (λ h. ground (arith, v.indexed j u, v.indexed id t e, bytes_beq_iff id j));
  resolved = λ s j. simp map_laws (λ h.
      let (u, found, same) = v.resolved s j h in
      elim (Bool-cases (id == j)) [
        | inl hit ↦
            (record t { last_heartbeat_at = now }, ground arith, ground (arith, bytes_beq_iff id j))
        | inr miss ↦ (u, ground arith, same)
      ]);
  allowed = λ j u.
      simp map_laws (λ h. ground (arith, v.allowed j u, v.allowed id t e, bytes_beq_iff id j));
}

pub update_heartbeat-Inv :
    (r : MemoryRegistry) (id : Bytes) (now : ℤ) → Inv r → Inv (update_heartbeat r id now).0
unfolding update_heartbeat
update_heartbeat-Inv r id now v = elim (Option-cases (GoMap.get r.tunnels id)) [
  | inl gone ↦ rw (gone, update_heartbeat) v
  | inr (t, e) ↦ rw (e, update_heartbeat) (beat-Inv r id t now e v)
]

pub new_memory_registry-Inv :
    (reserved : List Bytes) (longest ttl : ℤ) → Inv (new_memory_registry reserved longest ttl)
unfolding new_memory_registry
new_memory_registry-Inv reserved longest ttl = record {
  indexed = λ id t h. cc (h, GoMap.get-empty {V = Tunnel} id);
  resolved = λ s id h. cc (h, GoMap.get-empty {V = Bytes} s);
  allowed = λ id t h. cc (h, GoMap.get-empty {V = Tunnel} id);
}
