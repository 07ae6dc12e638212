-- ===== src/RateLimiter.antt =====
-- internal/server/ratelimit.go: the limiter of requests for each IP address. The token bucket of
-- golang.org/x/time/rate is a parameter; so is the float64 rate that the code computes for it.
pub mod Address
pub mod Events
pub mod PerVisitor
use go_tunnel.Base.{Bytes, Bool, true, Option, none, some, bytes_eq, ◌*◌, ◌^◌}
use go_tunnel.Base.Int.{ℤ, pos, ltb_ℤ}
use go_tunnel.GoMap
use go_tunnel.GoMap.{GoMap}
use go_tunnel.GoTime
use Address.{split_host_port}

-- Package rate: a limiter made for a rate and a burst, and its Allow at an instant, with what becomes
-- of the limiter. `per_minute n` is rate.Limit(float64(n) / 60.0).
pub record Buckets (Rate Limiter : Type 0) : Type 0 where
  pub per_minute : ℤ → Rate
  pub new_limiter : Rate → ℤ → Limiter
  pub allow : Limiter → ℤ → Bool × Limiter

-- A *visitor is reached through the map alone, and Allow has the map's lock when it looks a visitor
-- up: the two calls of Allow are one step.
pub record Visitor (Limiter : Type 0) : Type 0 where
  pub limiter : Limiter
  pub last_seen : ℤ

pub record RateLimiter (Rate Limiter : Type 0) : Type 0 where
  pub visitors : GoMap Bytes (Visitor Limiter)
  pub rps : Rate
  pub burst : ℤ

abbrev pub stale_after : ℤ
stale_after = pos (10 * (60 * 10 ^ 9))

module _ {Rate Limiter : Type 0} (lib : Buckets Rate Limiter) where
  unfoldable pub new_rate_limiter : ℤ → RateLimiter Rate Limiter
  new_rate_limiter requests_per_min = record {
    visitors = GoMap.empty;
    rps = lib.per_minute requests_per_min;
    burst = requests_per_min;
  }

  abbrev pub fresh : RateLimiter Rate Limiter → Limiter
  fresh rl = lib.new_limiter rl.rps rl.burst

  abbrev pub limiter_of : RateLimiter Rate Limiter → Option (Visitor Limiter) → Limiter
  limiter_of rl none = fresh rl
  limiter_of rl (some v) = v.limiter

  -- The limiter's own reading of the clock is taken to be the instant of the visitor's last_seen.
  unfoldable pub allow : RateLimiter Rate Limiter → Bytes → ℤ → RateLimiter Rate Limiter × Bool
  allow rl ip now =
      let (allowed, limiter) = lib.allow (limiter_of rl (GoMap.get rl.visitors ip)) now in
      (
        record rl {
          visitors = GoMap.put rl.visitors ip (record { limiter = limiter; last_seen = now });
        },
        allowed,
      )

  -- The test of the clean-up.
  abbrev pub is_stale : ℤ → Visitor Limiter → Bool
  is_stale now v = ltb_ℤ stale_after (GoTime.sub now v.last_seen)

  -- A tick of cleanupLoop.
  unfoldable pub cleanup : RateLimiter Rate Limiter → ℤ → RateLimiter Rate Limiter
  cleanup rl now = record rl { visitors = GoMap.delete_if rl.visitors (λ ip v. is_stale now v) }

  abbrev pub visitor_ip : Bytes → Option (Bytes × Bytes) → Bytes
  visitor_ip remote_addr none = remote_addr
  visitor_ip remote_addr (some (host, port)) = host

  -- The middleware; a request that is not allowed is answered with 429, any other goes on.
  unfoldable pub admit : RateLimiter Rate Limiter → Bytes → ℤ → RateLimiter Rate Limiter × Bool
  unfolding allow
  admit rl remote_addr now = allow rl (visitor_ip remote_addr (split_host_port remote_addr)) now
