-- ===== src/Tests/Client.antt =====
-- internal/client/client.go: resolvePort on two configurations, and Run.
use go_tunnel.Base.{List, true, false, arith, ℕ, Bytes, bytes, bytes_beq, [], ◌∷◌, ◌≡◌, ◌≢◌, refl}
use go_tunnel.Base.Int.{pos}
use go_tunnel.GoTime
use go_tunnel.Server.Connect.{tunnel_id}
use go_tunnel.Config.Types.{ClientTunnel}
use go_tunnel.Client.{resolve_port}
use go_tunnel.Client.Reconnect.Rows.{InARow, run_ends}
use go_tunnel.Client.Reconnect.{
  Round, unreachable, gave_up, stopped, run, run_loop, base_backoff, wait, run-unreachable, running,
  failing,
}
use go_tunnel.Client.Ports.{resolve_port-tunnel_id, resolve_port_misled}

abbrev on_port : Bytes → ℕ → ClientTunnel
on_port subdomain port = record {
  name = subdomain;
  port = pos port;
  protocol = bytes "http";
  subdomain = subdomain;
}

resolve_port-tunnel_id_example :
    resolve_port
      (on_port (bytes "app") 3000 ∷ on_port (bytes "web") 4000 ∷ [])
      (tunnel_id (bytes "conn-1") (bytes "web"))
    ≡ pos 4000
unfolding bytes_beq
resolve_port-tunnel_id_example =
    resolve_port-tunnel_id (bytes "conn-1") (bytes "web")
      (on_port (bytes "app") 3000 ∷ on_port (bytes "web") 4000 ∷ []) refl (refl, (refl, tt))

-- Both tunnels are configured, and the second one's traffic goes to the first one's port.
resolve_port_misled_example :
    resolve_port
      (on_port (bytes "app") 3000 ∷ on_port (bytes "my-app") 4000 ∷ [])
      (tunnel_id (bytes "c1") (bytes "my-app"))
    ≡ pos 3000
resolve_port_misled_example =
    resolve_port_misled (bytes "c1") (bytes "my") (on_port (bytes "app") 3000)
      (on_port (bytes "my-app") 4000 ∷ [])

-- Three attempts in vain, with waits of one and two seconds.
run-unreachable_example :
    run (pos 3) (pos 1000) (unreachable 4) ≡ (pos 1_000_000_000 ∷ pos 2_000_000_000 ∷ [], gave_up)
run-unreachable_example = run-unreachable 1000 2 4 (omega arith) (omega arith) (omega arith)

-- One failure, a connection that drops, and two failures: at a limit of three, Run gives up.
abbrev some_rounds : List Round
some_rounds =
    failing
    ∷ (record { connected = true; closed_before = false; closed_waiting = false })
    ∷ failing
    ∷ failing
    ∷ []

run_ends_example :
    (InARow 3 some_rounds → (run (pos 3) (pos 0) some_rounds).1 ≢ running)
    × ((run (pos 3) (pos 0) some_rounds).1 ≡ gave_up → InARow 3 some_rounds)
run_ends_example = run_ends 3 (pos 0) some_rounds (omega arith)

-- A connection that was made resets the count.
reset :
    run (pos 2) (pos 0) (
      (record { connected = true; closed_before = false; closed_waiting = false })
      ∷ (record { connected = true; closed_before = false; closed_waiting = true })
      ∷ [])
    ≡ (pos 1_000_000_000 ∷ pos 1_000_000_000 ∷ [], stopped)
unfolding run run_loop base_backoff wait GoTime.duration
reset = refl
