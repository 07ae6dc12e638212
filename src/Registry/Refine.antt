-- ===== src/Registry/Refine.antt =====
-- The registry implements the table of Table.antt.
use go_tunnel.Base.{
  Bytes, true, ◌||◌, none, some, List, [], ◌∷◌, arith, ◌≡◌, ◌↔◌, refl, ap, subst, ◌∙◌, inl, inr, ℕ,
  Option-cases, Bool-cases, bytes_eq, if◌then◌else◌,
}
use go_tunnel.Base.Member.{contains}
use go_tunnel.Base.Int.{ℤ, int_eq}
use go_tunnel.GoMap
use go_tunnel.Registry.{
  Tunnel, MemoryRegistry, tunnel_not_found, register, unregister, update_heartbeat, clean_expired,
  get_by_subdomain, is_expired, too_long, insert_tunnel, remove_tunnel, clean_loop,
}
use go_tunnel.Registry.Invariant.{
  Inv, register-Inv, register-cases, unregister-Inv, update_heartbeat-Inv,
}
use go_tunnel.Registry.{new_memory_registry, reserve_all}
use go_tunnel.Registry.Invariant.{new_memory_registry-Inv}
use go_tunnel.Registry.Clean.{clean_expired-Inv}
use go_tunnel.Registry.Table.{
  Call, registers, unregisters, beats, expires, call, admits, change, is_some, rules_of, looked_up,
  configured, bare, view, IsFresh, run, AreFresh, changes,
}
use go_tunnel.Registry.Table.Views.{
  view-unregister, view-clean, view-beat, view-register, get_by_subdomain-view,
}

call-Inv : (r : MemoryRegistry) (c : Call) → Inv r → IsFresh r c → Inv (call r c)
unfolding call IsFresh
call-Inv r (registers t) v fresh = register-Inv r t fresh v
call-Inv r (unregisters id) v fresh = unregister-Inv r id v
call-Inv r (beats id now) v fresh = update_heartbeat-Inv r id now v
call-Inv r (expires now) v fresh = clean_expired-Inv r now v

view-call :
    (r : MemoryRegistry) (c : Call)
    → Inv r
    → IsFresh r c
    → view (call r c) ≡ change (rules_of r) (view r) c
unfolding call IsFresh
view-call r (registers t) v fresh i sub = view-register r t sub fresh v i
view-call r (unregisters id) v fresh i sub = view-unregister r id sub v i
view-call r (beats id now) v fresh i sub = view-beat r id now sub v i
view-call r (expires now) v fresh i sub = view-clean r now sub v i

clean_loop-rules :
    (now : ℤ) (entries : List (Bytes × Tunnel)) (r : MemoryRegistry) (count : ℕ)
    → rules_of (clean_loop now entries r count).0 ≡ rules_of r
unfolding clean_loop remove_tunnel too_long
clean_loop-rules now [] r count = refl
clean_loop-rules now ((id, t) ∷ rest) r count =
    clean_loop-rules now rest (if is_expired now t then remove_tunnel r id t else r) _
    ∙ elim (Bool-cases (is_expired now t)) [ inl gone ↦ rw gone refl | inr kept ↦ rw kept refl ]

call-rules : (r : MemoryRegistry) (c : Call) → rules_of (call r c) ≡ rules_of r
unfolding call update_heartbeat unregister remove_tunnel clean_expired insert_tunnel too_long
call-rules r (registers t) = elim (register-cases r t) [
  | inl (e, refused) ↦ ap (λ p. rules_of p.0) refused
  | inr (done, _, _, _) ↦ ap (λ p. rules_of p.0) done
]
call-rules r (unregisters id) = elim (Option-cases (GoMap.get r.tunnels id)) [
  | inl gone ↦
      let missed : unregister r id ≡ (r, some tunnel_not_found) = ground arith in
      ap (λ p. rules_of p.0) missed
  | inr (t, e) ↦
      let removed : unregister r id ≡ (remove_tunnel r id t, none) = ground arith in
      ap (λ p. rules_of p.0) removed
]
call-rules r (beats id now) = elim (Option-cases (GoMap.get r.tunnels id)) [
  | inl gone ↦
      let missed : update_heartbeat r id now ≡ (r, some tunnel_not_found) = ground arith in
      ap (λ p. rules_of p.0) missed
  | inr (t, e) ↦
      let tunnels = GoMap.put r.tunnels id (record t { last_heartbeat_at = now }) in
      let beat : update_heartbeat r id now ≡ (record r { tunnels = tunnels }, none) =
        ground arith in
      ap (λ p. rules_of p.0) beat
]
call-rules r (expires now) = clean_loop-rules now (GoMap.range r.tunnels) r 0

run-view :
    (r : MemoryRegistry) (calls : List Call)
    → Inv r
    → AreFresh r calls
    → view (run r calls) ≡ changes (rules_of r) (view r) calls
unfolding run AreFresh
run-view r [] v fresh = refl
run-view r (c ∷ calls) v (here, after) =
    let v' = call-Inv r c v here in
    run-view (call r c) calls v' after
    ∙ (λ i. changes (call-rules r c i) (view-call r c v here i) calls)

reserve_all-get :
    (reserved : List Bytes) (m : GoMap.GoMap Bytes (Unit {0})) (sub : Bytes)
    → is_some (GoMap.get (reserve_all reserved m) sub)
      ≡ (contains reserved sub || is_some (GoMap.get m sub))
unfolding reserve_all
reserve_all-get [] m sub = refl
reserve_all-get (s ∷ rest) m sub =
    ground (arith, reserve_all-get rest (GoMap.put m s tt) sub, GoMap.get-put m s sub tt)

refuses-new :
    (reserved : List Bytes) (longest ttl : ℤ) (sub : Bytes)
    → (rules_of (new_memory_registry reserved longest ttl)).refuses sub
      ≡ (configured reserved longest ttl).refuses sub
unfolding new_memory_registry too_long
refuses-new reserved longest ttl sub =
    ground (arith, reserve_all-get reserved GoMap.empty sub, GoMap.get-empty {V = Unit {0}} sub)

rules_of-new :
    (reserved : List Bytes) (longest ttl : ℤ)
    → rules_of (new_memory_registry reserved longest ttl) ≡ configured reserved longest ttl
unfolding new_memory_registry
rules_of-new reserved longest ttl i = record {
  refuses = λ sub. refuses-new reserved longest ttl sub i;
  ttl = ttl;
}

view-new :
    (reserved : List Bytes) (longest ttl : ℤ)
    → view (new_memory_registry reserved longest ttl) ≡ bare
unfolding new_memory_registry
view-new reserved longest ttl i sub =
    let empty : view (new_memory_registry reserved longest ttl) sub ≡ none =
      ground (arith, GoMap.get-empty {V = Bytes} sub) in
    empty i

register-admits :
    (r : MemoryRegistry) (t : Tunnel)
    → Inv r
    → ((register r t).1 ≡ none) ↔ (admits (rules_of r) (view r) t ≡ true)
unfolding register
register-admits r t v = elim (Option-cases (GoMap.get r.subdomain_index t.subdomain)) [
  | inl free ↦ (λ h. ground arith, λ h. ground arith)
  | inr (id, e) ↦
      let (u, found, same) = v.resolved t.subdomain id e in (λ h. ground arith, λ h. ground arith)
]

run-Inv : (r : MemoryRegistry) (calls : List Call) → Inv r → AreFresh r calls → Inv (run r calls)
unfolding run AreFresh
run-Inv r [] v fresh = v
run-Inv r (c ∷ calls) v (here, after) = run-Inv (call r c) calls (call-Inv r c v here) after

run-rules : (r : MemoryRegistry) (calls : List Call) → rules_of (run r calls) ≡ rules_of r
unfolding run
run-rules r [] = refl
run-rules r (c ∷ calls) = run-rules (call r c) calls ∙ call-rules r c

-- The registry refines a table from subdomains to tunnels. Take a new registry and any list of calls
-- of Register, Unregister, UpdateHeartbeat and CleanExpired, each Register under an id that is not in
-- use. A lookup by subdomain then answers what the table holds after the same changes to an empty
-- table, and the next Register succeeds exactly if the table accepts the tunnel.
pub run_refines :
    (reserved : List Bytes) (longest ttl : ℤ) (calls : List Call) (t : Tunnel) (sub : Bytes)
    → AreFresh (new_memory_registry reserved longest ttl) calls
    → let rules = configured reserved longest ttl in
      let r = run (new_memory_registry reserved longest ttl) calls in
      let table = changes rules bare calls in
      (get_by_subdomain r sub ≡ looked_up (table sub))
      × (((register r t).1 ≡ none) ↔ (admits rules table t ≡ true))
run_refines reserved longest ttl calls t sub fresh =
    let r = new_memory_registry reserved longest ttl in
    let v = new_memory_registry-Inv reserved longest ttl in
    let v' = run-Inv r calls v fresh in
    let table : view (run r calls) ≡ changes (configured reserved longest ttl) bare calls =
      run-view r calls v fresh ∙ (λ i.
        changes (rules_of-new reserved longest ttl i) (view-new reserved longest ttl i) calls) in
    let rules = run-rules r calls ∙ rules_of-new reserved longest ttl in
    (
      get_by_subdomain-view (run r calls) sub v' ∙ (λ i. looked_up (table i sub)),
      subst
          (λ d.
            ((register (run r calls) t).1 ≡ none)
            ↔ (admits (configured reserved longest ttl) d t ≡ true))
          table
          (subst
            (λ u. ((register (run r calls) t).1 ≡ none) ↔ (admits u (view (run r calls)) t ≡ true))
            rules (register-admits (run r calls) t v')),
    )
