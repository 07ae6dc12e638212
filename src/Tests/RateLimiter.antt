-- ===== src/Tests/RateLimiter.antt =====
-- internal/server/ratelimit.go with a token bucket.
use go_tunnel.Base.{
  Bool-cases, inl, inr, ℕ, ◌+◌, ◌*◌, ◌-◌, leb, if◌then◌else◌, ◌∙◌, bytes, bytes_beq, Bool, true,
  false, none, some, List, [], ◌∷◌, ◌≡◌, refl, arith,
}
use go_tunnel.Base.Int.{ℤ, pos, pos_part, ◌-ℤ◌}
use go_tunnel.Base.Hex.{cut}
use go_tunnel.Host.{cut_last}
use go_tunnel.RateLimiter.{Buckets, new_rate_limiter, visitor_ip}
use go_tunnel.RateLimiter.Address.{split_plain, split_bracketed, split_host_port}
use go_tunnel.RateLimiter.Events.{Event, ask, tick, times_of}
use go_tunnel.RateLimiter.PerVisitor.{answers_of, solo, Used, first, again, Refills, answers-solo}

-- A request costs a minute's nanoseconds, and each nanosecond adds the requests a minute: the tokens
-- are counted in such parts.
pub record Bucket : Type 0 where
  rate : ℕ
  burst : ℕ
  tokens : ℕ
  last : ℤ

abbrev full : ℕ → ℕ
full burst = burst * 60_000_000_000

abbrev capped : ℕ → ℕ → ℕ
capped most n = if leb most n then most else n

abbrev refilled : Bucket → ℤ → ℕ
refilled b now = capped (full b.burst) (b.tokens + pos_part (now -ℤ b.last) * b.rate)

abbrev take : Bucket → ℤ → ℕ → Bool × Bucket
take b now n =
    if leb 60_000_000_000 n
    then (true, record b { tokens = n - 60_000_000_000; last = now })
    else (false, record b { tokens = n; last = now })

abbrev pub buckets : Buckets ℕ Bucket
buckets = record {
  per_minute = pos_part;
  new_limiter = λ rate burst. record {
    rate = rate;
    burst = pos_part burst;
    tokens = full (pos_part burst);
    last = pos 0;
  };
  allow = λ b now. take b now (refilled b now);
}

-- Two requests a minute.
abbrev two : Bucket
two = buckets.new_limiter (buckets.per_minute (pos 2)) (pos 2)

take-fields :
    (b : Bucket) (now : ℤ) (n : ℕ)
    → ((take b now n).1.rate ≡ b.rate)
      × ((take b now n).1.burst ≡ b.burst)
      × ((take b now n).1.last ≡ now)
take-fields b now n = elim (Bool-cases (leb 60_000_000_000 n)) [
  | inl enough ↦ rw enough (refl, refl, refl)
  | inr short ↦ rw short (refl, refl, refl)
]

Used-fields :
    (l : Bucket) (t : ℤ) → Used buckets two l t → (l.rate ≡ 2) × (l.burst ≡ 2) × (l.last ≡ t)
Used-fields _ _ (first t) = take-fields two t (refilled two t)
Used-fields _ _ (again {l = before} {t = earlier} used t h) =
    let (a, b, _) = Used-fields before earlier used in
    let (c, d, e) = take-fields before t (refilled before t) in (c ∙ a, d ∙ b, e)

two-Refills : Refills buckets two
two-Refills l t now used long =
    let (a, b, e) = Used-fields l t used in
    let old : refilled l now ≡ 120_000_000_000 = rw (a, b, e) (ground arith) in
    let new : refilled two now ≡ 120_000_000_000 = ground arith in rw (old, new) (rw (a, b) refl)

-- Two addresses; the first one rests for eleven minutes, and is cleaned up.
abbrev busy : List Event
busy =
    ask (bytes "10.0.0.1") (pos 0)
    ∷ ask (bytes "10.0.0.2") (pos 5)
    ∷ ask (bytes "10.0.0.1") (pos 10)
    ∷ ask (bytes "10.0.0.1") (pos 20)
    ∷ tick (pos 660_000_000_000)
    ∷ ask (bytes "10.0.0.1") (pos 660_000_000_011)
    ∷ []

answers-solo_example :
    answers_of buckets (bytes "10.0.0.1") (new_rate_limiter buckets (pos 2)) busy
    ≡ true ∷ true ∷ false ∷ true ∷ []
unfolding bytes_beq times_of solo new_rate_limiter ◌-ℤ◌
answers-solo_example =
    answers-solo buckets (pos 2) (bytes "10.0.0.1") busy (pos 0) two-Refills
      (omega arith, (omega arith, (omega arith, (omega arith, (omega arith, (omega arith, tt))))))

-- The address of a request with a port, with an IPv6 address, and without a port.
addresses :
    (visitor_ip buckets (bytes "10.0.0.1:80") (split_host_port (bytes "10.0.0.1:80"))
      ≡ bytes "10.0.0.1")
    × (split_host_port (bytes "[::1]:80") ≡ some (bytes "::1", bytes "80"))
    × (split_host_port (bytes "::1") ≡ none)
unfolding split_host_port split_plain split_bracketed cut cut_last
addresses = (refl, refl, refl)
