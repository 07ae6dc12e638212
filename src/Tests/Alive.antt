-- ===== src/Tests/Alive.antt =====
-- A heartbeat of internal/client/client.go at a gateway with one tunnel.
use go_tunnel.Base.{
  ℕ, Bytes, bytes, bytes_beq, true, false, some, [], ◌∷◌, ◌≡◌, refl, arith, bytes_eq,
}
use go_tunnel.Base.Int.{pos}
use go_tunnel.Base.Member.{contains}
use go_tunnel.Base.Result.{ok}
use go_tunnel.GoMap
use go_tunnel.GoMap.Assoc.{find, without}
use go_tunnel.GoTime
use go_tunnel.Protocol.{Heartbeat}
use go_tunnel.Protocol.Frame.{Json}
use go_tunnel.Registry.{
  Tunnel, new_memory_registry, reserve_all, register, insert_tunnel, with_ttl, too_long, is_expired,
  clean_expired, get_by_subdomain,
}
use go_tunnel.Server.{Server}
use go_tunnel.Server.Messages.{handle_message}
use go_tunnel.Client.Connect.{Tick, heartbeat, heartbeat_loop}
use go_tunnel.EndToEnd.Alive.{heartbeat_keeps}
use go_tunnel.Tests.Registry.{app, empty_registry, app_registry, app_registry-Inv}
use go_tunnel.Tests.Server.{toy_codecs, started}
use go_tunnel.Tests.Session.{client}

program : Unit {0}
unfolding bytes_beq GoMap.empty GoMap.get GoMap.put find without new_memory_registry reserve_all
    register insert_tunnel with_ttl too_long is_expired GoTime.duration GoTime.sub
program = tt

abbrev tick : Tick
tick = record { unix = pos 70; written = true }

abbrev beat_json : Json Heartbeat
beat_json = record {
  marshal = λ h. some (bytes "beat");
  unmarshal = λ b. some (heartbeat (pos 70));
}

-- A gateway with the tunnel "app", whose TTL is 60 seconds.
abbrev gateway : Server
gateway = record started { registry = app_registry }

abbrev alive : Tunnel
alive = record app { ttl = pos 60; last_heartbeat_at = pos 70_000_000_000 }

heartbeat_keeps_example :
    (raw : Bytes) × (s' : Server) × (n : ℕ) × ((heartbeat_loop beat_json client (tick ∷ [])).sent
      ≡ raw ∷ client.sent)
    × (handle_message toy_codecs true (λ n. pos 70_000_000_000) 0 (bytes "c1-app" ∷ []) raw gateway
        ≡ some s')
    × (GoMap.get s'.registry.tunnels (bytes "c1-app") ≡ some alive)
    × ((j : Bytes)
        → contains (bytes "c1-app" ∷ []) j ≡ false
        → GoMap.get s'.registry.tunnels j ≡ GoMap.get gateway.registry.tunnels j)
    × (get_by_subdomain (clean_expired s'.registry (pos 71_000_000_000)).0 (bytes "app")
        ≡ ok (some alive))
unfolding program
heartbeat_keeps_example =
    heartbeat_keeps toy_codecs beat_json client tick true (λ n. pos 70_000_000_000) 0
      (bytes "c1-app" ∷ []) gateway (pos 71_000_000_000) (with_ttl empty_registry app)
      (record {
        payload = bytes "beat";
        marshalled = refl;
        unmarshalled = refl;
        fits = omega arith;
      })
      app_registry-Inv refl refl (λ n. refl)
