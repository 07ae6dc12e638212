-- ===== src/Tests/Registry.antt =====
-- internal/registry/registry.go on concrete tunnels.
use go_tunnel.Base.{
  arith, List, true, ◌↔◌, ◌+◌, Bytes, bytes, bytes_beq, none, some, [], ◌∷◌, ◌≡◌, refl, bytes_eq,
}
use go_tunnel.Base.Int.{pos}
use go_tunnel.Base.Result.{ok}
use go_tunnel.GoTime
use go_tunnel.GoMap
use go_tunnel.GoMap.Assoc.{find, without}
use go_tunnel.Registry.{
  Tunnel, MemoryRegistry, new_memory_registry, register, unregister, insert_tunnel, remove_tunnel,
  with_ttl, too_long, get_by_id, get_by_subdomain, reserve_all, subdomain_reserved, subdomain_taken,
  is_expired, update_heartbeat, clean_loop, clean_expired,
}
use go_tunnel.Registry.Invariant.{Inv, register-Inv, new_memory_registry-Inv}
use go_tunnel.Registry.Table.{
  Call, registers, beats, unregisters, expires, call, run, IsFresh, AreFresh,
}
use go_tunnel.Registry.Refine.{run_refines}
use go_tunnel.Registry.Expiry.{IsOld, clean_expired_iff}
use go_tunnel.Registry.Collision.{get_by_subdomain-collision}

abbrev pub tunnel_named : Bytes → Bytes → Tunnel
tunnel_named id subdomain = record {
  id = id;
  owner_id = bytes "ann";
  subdomain = subdomain;
  protocol = bytes "http";
  target_port = pos 3000;
  created_at = pos 10;
  last_heartbeat_at = pos 10;
  conn_id = bytes "c1";
  ttl = pos 0;
  bandwidth_limit = pos 0;
}

abbrev pub app : Tunnel
app = tunnel_named (bytes "c1-app") (bytes "app")

abbrev pub web : Tunnel
web = tunnel_named (bytes "c1-web") (bytes "web")

abbrev pub empty_registry : MemoryRegistry
empty_registry = new_memory_registry (bytes "admin" ∷ []) (pos 20) (pos 60)

abbrev pub app_registry : MemoryRegistry
app_registry = (register empty_registry app).0

program : Unit {0}
unfolding bytes_beq GoMap.empty GoMap.get GoMap.put GoMap.delete GoMap.size GoMap.range find without
    register unregister insert_tunnel remove_tunnel with_ttl too_long get_by_id get_by_subdomain
    reserve_all new_memory_registry is_expired clean_loop clean_expired GoTime.duration GoTime.sub
program = tt

pub app_registry-Inv : Inv app_registry
unfolding program
app_registry-Inv =
    register-Inv empty_registry app refl
      (new_memory_registry-Inv (bytes "admin" ∷ []) (pos 20) (pos 60))

app_stored : with_ttl empty_registry app ≡ record app { ttl = pos 60 }
unfolding program
app_stored = refl

-- The reserved subdomain is refused, and so is one that is taken.
refusals :
    ((register empty_registry (tunnel_named (bytes "c1-admin") (bytes "admin"))).1
      ≡ some subdomain_reserved)
    × ((register app_registry (tunnel_named (bytes "c2-app") (bytes "app"))).1
        ≡ some subdomain_taken)
unfolding program
refusals = (refl, refl)

register-Inv_example : Inv (register app_registry web).0
unfolding program
register-Inv_example = register-Inv app_registry web refl app_registry-Inv

-- Two registrations, a heartbeat, a removal and an expiry; then "app" is gone and "web" is left.
abbrev some_calls : List Call
some_calls =
    registers app
    ∷ registers web
    ∷ beats (bytes "c1-web") (pos 70_000_000_000)
    ∷ unregisters (bytes "c1-app")
    ∷ expires (pos 71_000_000_000)
    ∷ []

run_refines_example :
    (get_by_subdomain (run empty_registry some_calls) (bytes "web")
      ≡ ok (some (record web { ttl = pos 60; last_heartbeat_at = pos 70_000_000_000 })))
    × (((register (run empty_registry some_calls) app).1 ≡ none) ↔ (true ≡ true))
unfolding program call run IsFresh AreFresh unregister update_heartbeat
run_refines_example =
    run_refines (bytes "admin" ∷ []) (pos 20) (pos 60) some_calls app (bytes "web")
      (refl, (refl, (tt, (tt, (tt, tt)))))

-- At 71 seconds a tunnel with a TTL of 60 seconds and a heartbeat at 10 nanoseconds has expired.
late : clean_expired app_registry (pos 71_000_000_000) ≡ (remove_tunnel app_registry app.id app, 1)
unfolding program
late = refl

clean_expired_iff_example :
    ((GoMap.get (clean_expired app_registry (pos 71_000_000_000)).0.tunnels app.id
        ≡ some (record app { ttl = pos 60 }))
      ↔ ((GoMap.get app_registry.tunnels app.id ≡ some (record app { ttl = pos 60 }))
          × (IsOld (pos 71_000_000_000) (record app { ttl = pos 60 }) → ⊥)))
    × ((clean_expired app_registry (pos 71_000_000_000)).1
          + GoMap.size (clean_expired app_registry (pos 71_000_000_000)).0.tunnels
        ≡ GoMap.size app_registry.tunnels)
clean_expired_iff_example =
    clean_expired_iff app_registry (pos 71_000_000_000) app.id (record app { ttl = pos 60 })
      (omega arith)

-- The ids of the connection "a" with the subdomain "b-c", and of "a-b" with "c", are the same.
get_by_subdomain-collision_example :
    get_by_subdomain
      (unregister
        (register
          (register empty_registry (tunnel_named (bytes "a-b-c") (bytes "b-c"))).0
          (tunnel_named (bytes "a-b-c") (bytes "c"))).0
        (bytes "a-b-c")).0
      (bytes "b-c")
    ≡ ok none
unfolding program
get_by_subdomain-collision_example =
    get_by_subdomain-collision
      (register empty_registry (tunnel_named (bytes "a-b-c") (bytes "b-c"))).0
      (record (tunnel_named (bytes "a-b-c") (bytes "b-c")) { ttl = pos 60 })
      (tunnel_named (bytes "a-b-c") (bytes "c"))
      (register-Inv empty_registry (tunnel_named (bytes "a-b-c") (bytes "b-c")) refl
        (new_memory_registry-Inv (bytes "admin" ∷ []) (pos 20) (pos 60)))
      refl (λ e. cc) refl
