-- ===== src/RateLimiter/PerVisitor.antt =====
-- The table of visitors, clean-ups included, is one limiter for each address.
use go_tunnel.Base.{
  Bytes, Bool, true, false, none, some, List, [], ◌∷◌, ◌≡◌, refl, sym, ap, ◌∙◌, arith, inl, inr,
  Bool-cases, bytes_eq, ◌==◌, bytes_beq_iff, if◌then◌else◌,
}
use go_tunnel.Base.Int.{ℤ, pos, ltb_ℤ, ◌≤ℤ◌, ◌-ℤ◌}
use go_tunnel.GoMap
use go_tunnel.GoTime
use go_tunnel.RateLimiter.{
  Buckets, Visitor, RateLimiter, stale_after, new_rate_limiter, fresh, limiter_of, allow, is_stale,
  cleanup,
}
use go_tunnel.RateLimiter.Events.{
  Event, ask, tick, InOrder, times_of, sub_mono, stale_rested, order_trans,
}

module _ {Rate Limiter : Type 0} (lib : Buckets Rate Limiter) where
  unfoldable pub answers_of : Bytes → RateLimiter Rate Limiter → List Event → List Bool
  answers_of ip rl [] = []
  answers_of ip rl (ask other now ∷ events) =
      let (rl', allowed) = allow lib rl other now in
      let rest = answers_of ip rl' events in if other == ip then allowed ∷ rest else rest
  answers_of ip rl (tick now ∷ events) = answers_of ip (cleanup lib rl now) events

  -- One limiter that nothing but these requests asks.
  unfoldable pub solo : Limiter → List ℤ → List Bool
  solo l [] = []
  solo l (now ∷ times) = let (allowed, l') = lib.allow l now in allowed ∷ solo l' times

  -- A limiter that was new and has been asked since, at last at the instant.
  pub data Used (new : Limiter) : Limiter → ℤ → Type 0 where
    first : (t : ℤ) → Used new (lib.allow new t).1 t
    again :
        {l : Limiter} {t : ℤ}
        → Used new l t
        → (later : ℤ) → t ≤ℤ later
        → Used new (lib.allow l later).1 later

  -- A limiter that was new, has been asked and then not for two minutes answers like a new one.
  abbrev pub Refills : Limiter → Type 0
  Refills new =
      (l : Limiter) (t now : ℤ)
      → Used new l t
      → pos 120_000_000_000 ≤ℤ now -ℤ t
      → lib.allow l now ≡ lib.allow new now

  -- How the table stands to the address's own limiter.
  data Stands (new : Limiter) (rl : RateLimiter Rate Limiter) (ip : Bytes) (l : Limiter) (now : ℤ)
      : Type 0 where
    kept :
        (v : Visitor Limiter)
        → GoMap.get rl.visitors ip ≡ some v
        → v.limiter ≡ l
        → Used new l v.last_seen
        → v.last_seen ≤ℤ now
        → Stands new rl ip l now
    unused : GoMap.get rl.visitors ip ≡ none → l ≡ new → Stands new rl ip l now
    rested :
        (t : ℤ)
        → GoMap.get rl.visitors ip ≡ none
        → Used new l t
        → t ≤ℤ now
        → ltb_ℤ stale_after (GoTime.sub now t) ≡ true
        → Stands new rl ip l now

  same_answer :
      (new : Limiter) (rl : RateLimiter Rate Limiter) (ip : Bytes) (l : Limiter) (now later : ℤ)
      → Refills new
      → fresh lib rl ≡ new
      → now ≤ℤ later
      → Stands new rl ip l now
      → lib.allow (limiter_of lib rl (GoMap.get rl.visitors ip)) later ≡ lib.allow l later
  same_answer new rl ip l now later refills made h (kept v found same used before) =
      rw found (rw same refl)
  same_answer new rl ip l now later refills made h (unused missing is_new) =
      rw missing (rw (made, is_new) refl)
  same_answer new rl ip l now later refills made h (rested t missing used before old) =
      rw missing
        (rw made (sym (refills l t later used (stale_rested t later (sub_mono t now later h old)))))

  Used-ask :
      (new : Limiter) (rl : RateLimiter Rate Limiter) (ip : Bytes) (l : Limiter) (now later : ℤ)
      → now ≤ℤ later
      → Stands new rl ip l now
      → Used new (lib.allow l later).1 later
  Used-ask new rl ip l now later h (kept v found same used before) =
      again used later (order_trans v.last_seen now later before h)
  Used-ask new rl ip l now later h (unused missing is_new) = rw is_new (first later)
  Used-ask new rl ip l now later h (rested t missing used before old) =
      again used later (order_trans t now later before h)

  Stands-ask :
      (new : Limiter) (rl : RateLimiter Rate Limiter) (ip : Bytes) (l : Limiter) (now later : ℤ)
      → Refills new
      → fresh lib rl ≡ new
      → now ≤ℤ later
      → Stands new rl ip l now
      → Stands new (allow lib rl ip later).0 ip (lib.allow l later).1 later
  unfolding allow
  Stands-ask new rl ip l now later refills made h st =
      let same = same_answer new rl ip l now later refills made h st in
      let after = (lib.allow (limiter_of lib rl (GoMap.get rl.visitors ip)) later).1 in
      let v : Visitor Limiter = record { limiter = after; last_seen = later } in
      kept v (ground (arith, GoMap.get-put rl.visitors ip ip v, bytes_beq_iff ip ip))
        (ap (λ (p : Bool × Limiter). p.1) same) (Used-ask new rl ip l now later h st) (omega arith)

  Stands-other :
      (new : Limiter) (rl : RateLimiter Rate Limiter) (ip other : Bytes) (l : Limiter)
      (now later : ℤ)
      → (other == ip) ≡ false
      → now ≤ℤ later
      → Stands new rl ip l now
      → Stands new (allow lib rl other later).0 ip l later
  unfolding allow
  Stands-other new rl ip other l now later apart h st = moved st
    where
      v : Visitor Limiter
      v = record {
        limiter = (lib.allow (limiter_of lib rl (GoMap.get rl.visitors other)) later).1;
        last_seen = later;
      }

      put : GoMap.get (GoMap.put rl.visitors other v) ip ≡ GoMap.get rl.visitors ip
      put = GoMap.get-put rl.visitors other ip v ∙ rw apart refl

      moved : Stands new rl ip l now → Stands new (allow lib rl other later).0 ip l later
      moved (kept u found same used before) =
          kept u (unfold allow in put ∙ found) same used
            (order_trans u.last_seen now later before h)
      moved (unused missing is_new) = unused (unfold allow in put ∙ missing) is_new
      moved (rested t missing used before old) =
          rested t (unfold allow in put ∙ missing) used (order_trans t now later before h)
            (sub_mono t now later h old)

  Stands-tick :
      (new : Limiter) (rl : RateLimiter Rate Limiter) (ip : Bytes) (l : Limiter) (now later : ℤ)
      → now ≤ℤ later
      → Stands new rl ip l now
      → Stands new (cleanup lib rl later) ip l later
  unfolding cleanup
  Stands-tick new rl ip l now later h (kept v found same used before) =
      let swept = GoMap.get-delete_if rl.visitors (λ k u. is_stale lib later u) ip in
      let since = order_trans v.last_seen now later before h in
      elim (Bool-cases (is_stale lib later v)) [
        | inl old ↦ rested v.last_seen (swept ∙ rw found (rw old refl)) used since old
        | inr recent ↦ kept v (swept ∙ rw found (rw recent refl)) same used since
      ]
  Stands-tick new rl ip l now later h (unused missing is_new) =
      let swept = GoMap.get-delete_if rl.visitors (λ k u. is_stale lib later u) ip in
      unused (swept ∙ rw missing refl) is_new
  Stands-tick new rl ip l now later h (rested t missing used before old) =
      let swept = GoMap.get-delete_if rl.visitors (λ k u. is_stale lib later u) ip in
      rested t (swept ∙ rw missing refl) used (order_trans t now later before h)
        (sub_mono t now later h old)

  fresh-allow :
      (rl : RateLimiter Rate Limiter) (ip : Bytes) (t : ℤ)
      → fresh lib (allow lib rl ip t).0 ≡ fresh lib rl
  unfolding allow
  fresh-allow rl ip t = refl

  fresh-cleanup :
      (rl : RateLimiter Rate Limiter) (t : ℤ) → fresh lib (cleanup lib rl t) ≡ fresh lib rl
  unfolding cleanup
  fresh-cleanup rl t = refl

  allowed-own :
      (new : Limiter) (rl : RateLimiter Rate Limiter) (ip other : Bytes) (l : Limiter)
      (now later : ℤ)
      → Refills new
      → fresh lib rl ≡ new
      → other ≡ ip
      → now ≤ℤ later
      → Stands new rl ip l now
      → (allow lib rl other later).1 ≡ (lib.allow l later).0
  unfolding allow
  allowed-own new rl ip other l now later refills made same h st =
      rw same
        (ap (λ (p : Bool × Limiter). p.0) (same_answer new rl ip l now later refills made h st))

  answers-Stands :
      (new : Limiter) (ip : Bytes) (events : List Event) (rl : RateLimiter Rate Limiter)
      (l : Limiter) (now : ℤ)
      → Refills new
      → fresh lib rl ≡ new
      → InOrder now events
      → Stands new rl ip l now
      → answers_of ip rl events ≡ solo l (times_of ip events)
  unfolding answers_of times_of solo
  answers-Stands new ip [] rl l now refills made order st = refl
  answers-Stands new ip (tick later ∷ events) rl l now refills made order st =
      answers-Stands new ip events (cleanup lib rl later) l later refills
        (fresh-cleanup rl later ∙ made) order.1 (Stands-tick new rl ip l now later order.0 st)
  answers-Stands new ip (ask other later ∷ events) rl l now refills made order st =
      let still = fresh-allow rl other later ∙ made in
      elim (Bool-cases (other == ip)) [
        | inl own ↦
            let same : other ≡ ip = (bytes_beq_iff other ip).0 own in
            let next : Stands new (allow lib rl other later).0 ip (lib.allow l later).1 later =
              rw same (Stands-ask new rl ip l now later refills made order.0 st) in
            rw (own, allowed-own new rl ip other l now later refills made same order.0 st)
              (ap (λ answers. (lib.allow l later).0 ∷ answers)
                (answers-Stands new ip events (allow lib rl other later).0 (lib.allow l later).1
                  later refills still order.1 next))
        | inr apart ↦ rw apart (
            answers-Stands new ip events (allow lib rl other later).0 l later refills still order.1
              (Stands-other new rl ip other l now later apart order.0 st))
      ]

  -- The addresses are limited apart from each other, and the clean-up is never felt: whatever the
  -- other addresses ask and whenever the clean-up runs, an address gets the answers of one limiter of
  -- its own that is never removed, made for the configured number of requests a minute with as large a
  -- burst. The clock must not go back, and such a limiter, once it was asked and then not for two
  -- minutes, must answer like a new one: its bucket is full again after one.
  pub answers-solo :
      (requests_per_min : ℤ) (ip : Bytes) (events : List Event) (start : ℤ)
      → let new = lib.new_limiter (lib.per_minute requests_per_min) requests_per_min in
        Refills new
        → InOrder start events
        → answers_of ip (new_rate_limiter lib requests_per_min) events
          ≡ solo new (times_of ip events)
  unfolding new_rate_limiter
  answers-solo requests_per_min ip events start refills order =
      let new = lib.new_limiter (lib.per_minute requests_per_min) requests_per_min in
      answers-Stands new ip events (new_rate_limiter lib requests_per_min) new start refills refl
        order (unused (GoMap.get-empty ip) refl)
