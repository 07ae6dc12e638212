-- ===== src/Metrics.antt =====
-- internal/metrics/metrics.go: the calls that the program makes of its Prometheus collectors, newest
-- first. What a collector shows is a function of its calls. Nothing in the program calls
-- SetActiveTunnels, the methods of StreamsActive or IncReconnects. Registration is left out.
use go_tunnel.Base.{ℕ, ◌+◌, Bytes, List, [], ◌∷◌, ◌≡◌, refl, bytes_eq, ◌==◌, ◌&&◌, if◌then◌else◌}
use go_tunnel.Base.Int.{ℤ, pos, ◌+ℤ◌, ◌-ℤ◌}

-- One constructor for each method; a float64 argument is a whole number.
pub data MetricCall : Type 0 where
  inc_active_tunnels dec_active_tunnels inc_token_auth_failures : MetricCall
  inc_streams_active dec_streams_active inc_reconnects : MetricCall
  set_active_tunnels set_streams_active : ℤ → MetricCall
  add_bytes_sent add_bytes_recv : ℕ → MetricCall
  inc_requests : Bytes → Bytes → MetricCall

-- What the gauge gotunnel_active_tunnels_total shows after the calls.
unfoldable pub active_tunnels : List MetricCall → ℤ
active_tunnels [] = pos 0
active_tunnels (inc_active_tunnels ∷ calls) = active_tunnels calls +ℤ pos 1
active_tunnels (dec_active_tunnels ∷ calls) = active_tunnels calls -ℤ pos 1
active_tunnels (set_active_tunnels v ∷ calls) = v
active_tunnels (_ ∷ calls) = active_tunnels calls

-- What the counter gotunnel_token_auth_failures_total shows after the calls.
unfoldable pub token_auth_failures : List MetricCall → ℕ
token_auth_failures [] = 0
token_auth_failures (inc_token_auth_failures ∷ calls) = token_auth_failures calls + 1
token_auth_failures (_ ∷ calls) = token_auth_failures calls

-- What all the collectors show.
pub record Metrics : Type 0 where
  pub active_tunnels_total : ℤ
  pub streams_active : ℤ
  pub bytes_sent : ℕ
  pub bytes_recv : ℕ
  pub requests : Bytes → Bytes → ℕ
  pub token_auth_failures_total : ℕ
  pub reconnects : ℕ

unfoldable pub new_metrics : Metrics
new_metrics = record {
  active_tunnels_total = pos 0;
  streams_active = pos 0;
  bytes_sent = 0;
  bytes_recv = 0;
  requests = λ code method. 0;
  token_auth_failures_total = 0;
  reconnects = 0;
}

-- A call of a method.
unfoldable pub observe : Metrics → MetricCall → Metrics
observe m inc_active_tunnels = record m { active_tunnels_total = m.active_tunnels_total +ℤ pos 1 }
observe m dec_active_tunnels = record m { active_tunnels_total = m.active_tunnels_total -ℤ pos 1 }
observe m inc_token_auth_failures = record m {
  token_auth_failures_total = m.token_auth_failures_total + 1;
}
observe m inc_streams_active = record m { streams_active = m.streams_active +ℤ pos 1 }
observe m dec_streams_active = record m { streams_active = m.streams_active -ℤ pos 1 }
observe m inc_reconnects = record m { reconnects = m.reconnects + 1 }
observe m (set_active_tunnels v) = record m { active_tunnels_total = v }
observe m (set_streams_active v) = record m { streams_active = v }
observe m (add_bytes_sent n) = record m { bytes_sent = m.bytes_sent + n }
observe m (add_bytes_recv n) = record m { bytes_recv = m.bytes_recv + n }
observe m (inc_requests code method) = record m {
  requests = λ c q. if c == code && q == method then m.requests c q + 1 else m.requests c q;
}

-- What they show after the calls, of which the last one is the first of the list.
unfoldable pub shown : List MetricCall → Metrics
unfolding new_metrics
shown [] = new_metrics
shown (c ∷ calls) = observe (shown calls) c

-- The two readings used elsewhere are those of the collectors.
pub shown-active_tunnels :
    (calls : List MetricCall)
    → ((shown calls).active_tunnels_total ≡ active_tunnels calls)
      × ((shown calls).token_auth_failures_total ≡ token_auth_failures calls)
unfolding shown observe active_tunnels token_auth_failures
shown-active_tunnels [] = (refl, refl)
shown-active_tunnels (inc_active_tunnels ∷ calls) =
    let (a, b) = shown-active_tunnels calls in (rw a refl, b)
shown-active_tunnels (dec_active_tunnels ∷ calls) =
    let (a, b) = shown-active_tunnels calls in (rw a refl, b)
shown-active_tunnels (inc_token_auth_failures ∷ calls) =
    let (a, b) = shown-active_tunnels calls in (a, rw b refl)
shown-active_tunnels (inc_streams_active ∷ calls) = shown-active_tunnels calls
shown-active_tunnels (dec_streams_active ∷ calls) = shown-active_tunnels calls
shown-active_tunnels (inc_reconnects ∷ calls) = shown-active_tunnels calls
shown-active_tunnels (set_active_tunnels v ∷ calls) = (refl, (shown-active_tunnels calls).1)
shown-active_tunnels (set_streams_active v ∷ calls) = shown-active_tunnels calls
shown-active_tunnels (add_bytes_sent n ∷ calls) = shown-active_tunnels calls
shown-active_tunnels (add_bytes_recv n ∷ calls) = shown-active_tunnels calls
shown-active_tunnels (inc_requests code method ∷ calls) = shown-active_tunnels calls
