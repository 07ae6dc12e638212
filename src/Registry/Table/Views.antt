-- ===== src/Registry/Table/Views.antt =====
-- What each method of the registry does to the table it is seen as.
use go_tunnel.Base.{
  Bytes, false, Option, none, some, arith, ◌≡◌, ◌↔◌, refl, sym, ◌∙◌, inl, inr, Option-cases,
  Bool-cases, bytes_eq, bytes_beq_iff, ◌==◌, if◌then◌else◌,
}
use go_tunnel.Base.Int.{ℤ, int_eq}
use go_tunnel.GoMap
use go_tunnel.Registry.{
  Tunnel, MemoryRegistry, register, unregister, update_heartbeat, clean_expired, get_by_subdomain,
  is_expired, with_ttl, insert_tunnel, remove_tunnel,
}
use go_tunnel.Registry.Invariant.{Inv, with_ttl-fields, unregister-Inv}
use go_tunnel.Registry.Clean.{clean_expired_lem, clean_expired-Inv}
use go_tunnel.Registry.Table.{
  registers, keep_unless, touched, filled, admits, change, rules_of, looked_up, view,
}

view_iff :
    (r : MemoryRegistry) (sub : Bytes) (t : Tunnel)
    → Inv r
    → (view r sub ≡ some t) ↔ ((GoMap.get r.tunnels t.id ≡ some t) × (t.subdomain ≡ sub))
view_iff r sub t v = (to, λ h. ground (arith, v.indexed t.id t h.0))
  where
    to : view r sub ≡ some t → (GoMap.get r.tunnels t.id ≡ some t) × (t.subdomain ≡ sub)
    to h = elim (Option-cases (GoMap.get r.subdomain_index sub)) [
      | inl missing ↦ let k : ⊥ = ground arith in absurd k
      | inr (id, e) ↦
          let (u, found, same) = v.resolved sub id e in
          let whole : u ≡ t = ground arith in let (own, _) = v.indexed id u found in ground arith
    ]

pub get_by_subdomain-view :
    (r : MemoryRegistry) (sub : Bytes) → Inv r → get_by_subdomain r sub ≡ looked_up (view r sub)
unfolding get_by_subdomain
get_by_subdomain-view r sub v = elim (Option-cases (GoMap.get r.subdomain_index sub)) [
  | inl missing ↦ ground arith
  | inr (id, e) ↦ let (t, found, _) = v.resolved sub id e in ground arith
]

-- Options with the same contents are the same.
Option-ext :
    {a b : Option Tunnel}
    → ((t : Tunnel) → a ≡ some t → b ≡ some t)
    → ((t : Tunnel) → b ≡ some t → a ≡ some t)
    → a ≡ b
Option-ext {a} {b} f g = elim (Option-cases a) [
  | inr (t, e) ↦ e ∙ sym (f t e)
  | inl e ↦ elim (Option-cases b) [ inl e' ↦ e ∙ sym e' | inr (t, e') ↦ g t e' ∙ sym e' ]
]

unregister-tunnels :
    (r : MemoryRegistry) (id j : Bytes)
    → GoMap.get (unregister r id).0.tunnels j ≡ (if id == j then none else GoMap.get r.tunnels j)
unfolding unregister remove_tunnel
unregister-tunnels r id j = elim (Option-cases (GoMap.get r.tunnels id)) [
  | inl gone ↦ ground (arith, bytes_beq_iff id j)
  | inr (t, e) ↦ ground (arith, GoMap.get-delete r.tunnels id j)
]

pub beat-tunnels :
    (r : MemoryRegistry) (id j : Bytes) (now : ℤ)
    → Inv r
    → GoMap.get (update_heartbeat r id now).0.tunnels j ≡ touched id now (GoMap.get r.tunnels j)
unfolding update_heartbeat
beat-tunnels r id j now v = elim (Option-cases (GoMap.get r.tunnels id)) [
  | inl gone ↦ elim (Option-cases (GoMap.get r.tunnels j)) [
    | inl e ↦ ground arith
    | inr (u, e) ↦ ground (arith, v.indexed j u e, bytes_beq_iff u.id id)
  ]
  | inr (t, found) ↦
      let put = GoMap.get-put r.tunnels id j (record t { last_heartbeat_at = now }) in
      elim (Option-cases (GoMap.get r.tunnels j)) [
        | inl e ↦ ground (arith, put, bytes_beq_iff id j)
        | inr (u, e) ↦
            ground (arith, put, v.indexed j u e, bytes_beq_iff u.id id, bytes_beq_iff id j)
      ]
]

pub view-unregister :
    (r : MemoryRegistry) (id sub : Bytes)
    → Inv r
    → view (unregister r id).0 sub ≡ keep_unless (λ t. t.id == id) (view r sub)
view-unregister r id sub v =
    let r' = (unregister r id).0 in
    let v' = unregister-Inv r id v in
    Option-ext
      (λ t h.
        let (held, same) = (view_iff r' sub t v').0 h in
        let there = unregister-tunnels r id t.id in
        let before : view r sub ≡ some t = (view_iff r sub t v).1 (ground arith, same) in
        ground (arith, bytes_beq_iff id t.id, bytes_beq_iff t.id id))
      (λ t h.
        let before : (view r sub ≡ some t) × ((t.id == id) ≡ false) = ground arith in
        let (held, same) = (view_iff r sub t v).0 before.0 in
        let there = unregister-tunnels r id t.id in
        (view_iff r' sub t v').1
          (ground (arith, bytes_beq_iff id t.id, bytes_beq_iff t.id id), same))

pub view-clean :
    (r : MemoryRegistry) (now : ℤ) (sub : Bytes)
    → Inv r
    → view (clean_expired r now).0 sub ≡ keep_unless (is_expired now) (view r sub)
view-clean r now sub v =
    let r' = (clean_expired r now).0 in
    let v' = clean_expired-Inv r now v in
    let kept = (clean_expired_lem r now).0 in
    Option-ext
      (λ t h.
        let (held, same) = (view_iff r' sub t v').0 h in
        let there = kept t.id in
        let before : view r sub ≡ some t = (view_iff r sub t v).1 (ground arith, same) in
        ground arith)
      (λ t h.
        let before : (view r sub ≡ some t) × (is_expired now t ≡ false) = ground arith in
        let (held, same) = (view_iff r sub t v).0 before.0 in
        let there = kept t.id in (view_iff r' sub t v').1 (ground arith, same))

beat-index :
    (r : MemoryRegistry) (id : Bytes) (now : ℤ)
    → (update_heartbeat r id now).0.subdomain_index ≡ r.subdomain_index
unfolding update_heartbeat
beat-index r id now = elim (Option-cases (GoMap.get r.tunnels id)) [
  | inl gone ↦ rw (gone, update_heartbeat) refl
  | inr (t, e) ↦ rw (e, update_heartbeat) refl
]

pub view-beat :
    (r : MemoryRegistry) (id : Bytes) (now : ℤ) (sub : Bytes)
    → Inv r
    → view (update_heartbeat r id now).0 sub ≡ touched id now (view r sub)
view-beat r id now sub v = elim (Option-cases (GoMap.get r.subdomain_index sub)) [
  | inl missing ↦ ground (arith, beat-index r id now)
  | inr (j, e) ↦ ground (arith, beat-index r id now, beat-tunnels r id j now v)
]

insert-view :
    (r : MemoryRegistry) (t : Tunnel) (sub : Bytes)
    → GoMap.get r.tunnels t.id ≡ none
    → Inv r
    → view (insert_tunnel r t) sub ≡ (if t.subdomain == sub then some t else view r sub)
unfolding insert_tunnel
insert-view r t sub fresh v = elim (Option-cases (GoMap.get r.subdomain_index sub)) [
  | inl missing ↦ ground (
    arith,
    GoMap.get-put r.subdomain_index t.subdomain sub t.id,
    GoMap.get-put r.tunnels t.id t.id t,
    bytes_beq_iff t.id t.id,
  )
  | inr (id, e) ↦
      let (u, found, same) = v.resolved sub id e in
      ground (
        arith,
        GoMap.get-put r.subdomain_index t.subdomain sub t.id,
        GoMap.get-put r.tunnels t.id t.id t,
        GoMap.get-put r.tunnels t.id id t,
        bytes_beq_iff t.id id,
        bytes_beq_iff t.id t.id,
      )
]

-- What a registration leaves, by the table and the rules.
register-left :
    (r : MemoryRegistry) (t : Tunnel)
    → Inv r
    → (register r t).0
      ≡ (if admits (rules_of r) (view r) t then insert_tunnel r (with_ttl r t) else r)
unfolding register
register-left r t v = elim (Option-cases (GoMap.get r.subdomain_index t.subdomain)) [
  | inl free ↦ ground arith
  | inr (id, e) ↦ let (u, found, same) = v.resolved t.subdomain id e in ground arith
]

filled-with_ttl : (r : MemoryRegistry) (t : Tunnel) → with_ttl r t ≡ filled r.default_ttl t
unfolding with_ttl
filled-with_ttl r t = refl

pub view-register :
    (r : MemoryRegistry) (t : Tunnel) (sub : Bytes)
    → GoMap.get r.tunnels t.id ≡ none
    → Inv r
    → view (register r t).0 sub ≡ change (rules_of r) (view r) (registers t) sub
view-register r t sub fresh v =
    let u = with_ttl r t in
    let kept = with_ttl-fields r t in
    let added = insert-view r u sub (rw kept.0 fresh) v in
    let admitted = admits (rules_of r) (view r) t in
    elim (Bool-cases admitted) [
      | inl allowed ↦ ground (arith, register-left r t v, filled-with_ttl r t)
      | inr denied ↦ ground (arith, register-left r t v, filled-with_ttl r t)
    ]
