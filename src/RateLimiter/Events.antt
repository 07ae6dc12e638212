-- ===== src/RateLimiter/Events.antt =====
-- Requests and ticks of the clean-up in the order of time.
use go_tunnel.Base.{Bytes, true, List, [], ◌∷◌, ◌≡◌, arith, bytes_eq, ◌==◌, if◌then◌else◌}
use go_tunnel.Base.Int.{ℤ, pos, ltb_ℤ, ◌≤ℤ◌, ◌-ℤ◌}
use go_tunnel.GoTime
use go_tunnel.RateLimiter.{stale_after}

-- A request of an address, or a tick of the clean-up, at an instant.
pub data Event : Type 0 where
  ask : Bytes → ℤ → Event
  tick : ℤ → Event

abbrev pub time_of : Event → ℤ
time_of (ask ip now) = now
time_of (tick now) = now

-- The clock does not go back.
abbrev pub InOrder : ℤ → List Event → Type 0
InOrder before [] = Unit {0}
InOrder before (e ∷ events) = (before ≤ℤ time_of e) × InOrder (time_of e) events

-- The instants at which an address asks, and the answers that it gets.
unfoldable pub times_of : Bytes → List Event → List ℤ
times_of ip [] = []
times_of ip (ask other now ∷ events) =
    let rest = times_of ip events in if other == ip then now ∷ rest else rest
times_of ip (tick now ∷ events) = times_of ip events

pub sub_mono :
    (t now later : ℤ)
    → now ≤ℤ later
    → ltb_ℤ stale_after (GoTime.sub now t) ≡ true
    → ltb_ℤ stale_after (GoTime.sub later t) ≡ true
unfolding GoTime.sub ◌-ℤ◌
sub_mono t now later h old = ground arith

-- A visitor that is stale has rested for two minutes.
pub stale_rested :
    (t now : ℤ) → ltb_ℤ stale_after (GoTime.sub now t) ≡ true → pos 120_000_000_000 ≤ℤ now -ℤ t
unfolding GoTime.sub ◌-ℤ◌
stale_rested t now old = ground arith

pub order_trans : (a b c : ℤ) → a ≤ℤ b → b ≤ℤ c → a ≤ℤ c
order_trans a b c h k = omega arith
