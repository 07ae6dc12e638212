-- ===== src/Registry/Expiry.antt =====
-- CleanExpired by the age of a tunnel, in exact integers: the int64 arithmetic of time.Duration and
-- time.Time.Sub does not show.
use go_tunnel.Base.{
  ℕ, ◌+◌, ◌*◌, ◌^◌, ◌-◌, ◌≤◌, ◌<◌, ◌&&◌, Bytes, true, false, some, arith, ◌≡◌, refl, ◌↔◌, inl, inr,
  Bool-cases, bytes_eq,
}
use go_tunnel.Base.Int.{ℤ, pos, negsuc, ltb_ℤ, ◌*ℤ◌, ◌-ℤ◌, ◌<ℤ◌, ◌≤ℤ◌, wrap64, sub_ℕ}
use go_tunnel.GoMap
use go_tunnel.GoTime
use go_tunnel.Registry.{Tunnel, MemoryRegistry, is_expired, clean_expired}
use go_tunnel.Registry.Clean.{clean_expired_lem}

-- The tunnel has a TTL, and its last heartbeat is longer ago than that many seconds.
abbrev pub IsOld : ℤ → Tunnel → Type 0
IsOld now t = (pos 0 <ℤ t.ttl) × (t.ttl *ℤ pos 1_000_000_000 <ℤ now -ℤ t.last_heartbeat_at)

seconds :
    (n : ℕ) → n ≤ 9_223_372_036 → GoTime.duration (pos n) GoTime.second ≡ pos (n * 1_000_000_000)
unfolding GoTime.duration ◌*ℤ◌ wrap64
seconds n small =
    let whole : sub_ℕ (n * 1_000_000_000 + 0) (n * 0 + 0 * 1_000_000_000)
        ≡ pos (n * 1_000_000_000) =
      ground arith in
    rw whole (ground arith)

-- Sub's saturation does not change the comparison with a duration below its ends.
saturated :
    (t u : ℤ) (n : ℕ) → n < 2 ^ 63 - 1 → (ltb_ℤ (pos n) (GoTime.sub t u) ≡ true) ↔ (pos n <ℤ t -ℤ u)
unfolding GoTime.sub
saturated t u n small = (λ h. ground arith, λ h. ground arith)

exact : (n : ℕ) → pos n *ℤ pos 1_000_000_000 ≡ pos (n * 1_000_000_000)
unfolding ◌*ℤ◌
exact n = ground arith

by_age :
    (n : ℕ) (now last : ℤ)
    → n ≤ 9_223_372_036
    → ((ltb_ℤ (pos 0) (pos n)
          && ltb_ℤ (GoTime.duration (pos n) GoTime.second) (GoTime.sub now last))
        ≡ true)
      ↔ ((pos 0 <ℤ pos n) × (pos n *ℤ pos 1_000_000_000 <ℤ now -ℤ last))
by_age n now last small =
    let (to, back) = saturated now last (n * 1_000_000_000) (omega arith) in
    rw (seconds n small, exact n)
      (λ h. (ground arith, to (ground arith)), λ h. ground (arith, back h.1))

is_expired_iff :
    (now : ℤ) (t : Tunnel) → t.ttl ≤ℤ pos 9_223_372_036 → (is_expired now t ≡ true) ↔ IsOld now t
is_expired_iff now t fits = by_ttl t.ttl refl
  where
    by_ttl : (z : ℤ) → t.ttl ≡ z → (is_expired now t ≡ true) ↔ IsOld now t
    by_ttl (pos n) e = unfold is_expired in rw e (by_age n now t.last_heartbeat_at (ground arith))
    by_ttl (negsuc n) e = unfold is_expired in (λ h. ground arith, λ h. ground arith)

-- CleanExpired removes exactly the tunnels that have a TTL and whose last heartbeat is longer ago than
-- the TTL says, at a TTL of at most 9223372036 seconds, whose nanoseconds fit an int64: such a tunnel
-- is gone under its id, any other is unchanged, and no new one appears. The count that is returned is
-- the number of tunnels that went.
pub clean_expired_iff :
    (r : MemoryRegistry) (now : ℤ) (j : Bytes) (t : Tunnel)
    → t.ttl ≤ℤ pos 9_223_372_036
    → let (r', n) = clean_expired r now in
      ((GoMap.get r'.tunnels j ≡ some t) ↔ ((GoMap.get r.tunnels j ≡ some t) × (IsOld now t → ⊥)))
      × (n + GoMap.size r'.tunnels ≡ GoMap.size r.tunnels)
clean_expired_iff r now j t fits =
    let (kept, counted) = clean_expired_lem r now in
    let k = kept j in
    let (to, back) = is_expired_iff now t fits in
    (
      (
        λ h.
            let here : (GoMap.get r.tunnels j ≡ some t) × (is_expired now t ≡ false) =
              ground arith in
            (here.0, λ old. let e = back old in ground (arith, e, here.1)),
        λ h. elim (Bool-cases (is_expired now t)) [
          | inl old ↦ absurd (h.1 (to old))
          | inr young ↦ let found = h.0 in ground (arith, k, found)
        ],
      ),
      counted,
    )
