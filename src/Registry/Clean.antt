-- ===== src/Registry/Clean.antt =====
-- CleanExpired: which tunnels it removes, how many it reports, and that the registry stays well
-- formed.
use go_tunnel.Base.{
  ℕ, suc, ◌+◌, Bytes, Bool, Option, none, some, List, [], ◌∷◌, arith, ◌≡◌, refl, ◌∙◌, bytes_eq,
  bytes_beq_iff, ◌==◌, if◌then◌else◌, Bool-cases, inl, inr,
}
use go_tunnel.Base.Int.{ℤ}
use go_tunnel.GoMap
use go_tunnel.GoMap.{GoMap, map_laws}
use go_tunnel.GoMap.Assoc.{Unique, find, unless}
use go_tunnel.Registry.{
  Tunnel, MemoryRegistry, remove_tunnel, is_expired, clean_loop, clean_expired,
}
use go_tunnel.Registry.Invariant.{Inv, remove_tunnel-Inv}

abbrev pub by_test : ℤ → Bytes → Tunnel → Bool
by_test now id t = is_expired now t

-- What the loop leaves of an entry, given what it still finds in the list.
abbrev left : ℤ → Option Tunnel → Option Tunnel → Option Tunnel
left now none kept = kept
left now (some t) kept = if is_expired now t then none else kept

pub tunnels-remove :
    (r : MemoryRegistry) (id j : Bytes) (t : Tunnel)
    → GoMap.get (remove_tunnel r id t).tunnels j ≡ (if id == j then none else GoMap.get r.tunnels j)
unfolding remove_tunnel
tunnels-remove r id j t = simp map_laws

clean_loop-get :
    (now : ℤ) (l : List (Bytes × Tunnel)) (r : MemoryRegistry) (n : ℕ) (j : Bytes)
    → Unique l
    → GoMap.get (clean_loop now l r n).0.tunnels j ≡ left now (find j l) (GoMap.get r.tunnels j)
unfolding clean_loop find
clean_loop-get now [] r n j u = refl
clean_loop-get now ((id, t) ∷ l) r n j u = elim (Bool-cases (is_expired now t)) [
  | inl old ↦
      rw (old, clean_loop)
        (rw (clean_loop-get now l (remove_tunnel r id t) (suc n) j u.1)
          (rw tunnels-remove (ground (arith, bytes_beq_iff id j, u.0))))
  | inr young ↦
      rw (young, clean_loop)
        (rw (clean_loop-get now l r n j u.1) (ground (arith, bytes_beq_iff id j, u.0)))
]

-- Every entry that is still to come is in the map.
abbrev Ahead : List (Bytes × Tunnel) → MemoryRegistry → Type 0
Ahead l r = (j : Bytes) (t : Tunnel) → find j l ≡ some t → GoMap.get r.tunnels j ≡ some t

Ahead-kept :
    (id : Bytes) (t : Tunnel) (l : List (Bytes × Tunnel)) (r : MemoryRegistry)
    → find id l ≡ none
    → Ahead ((id, t) ∷ l) r
    → Ahead l r
unfolding find
Ahead-kept id t l r u a j v h = a j v (ground (arith, bytes_beq_iff id j))

Ahead-removed :
    (id : Bytes) (t : Tunnel) (l : List (Bytes × Tunnel)) (r : MemoryRegistry)
    → find id l ≡ none
    → Ahead ((id, t) ∷ l) r
    → Ahead l (remove_tunnel r id t)
Ahead-removed id t l r u a j v h =
    rw tunnels-remove (ground (arith, bytes_beq_iff id j, Ahead-kept id t l r u a j v h))

Ahead-head :
    (id : Bytes) (t : Tunnel) (l : List (Bytes × Tunnel)) (r : MemoryRegistry)
    → Ahead ((id, t) ∷ l) r
    → GoMap.get r.tunnels id ≡ some t
unfolding find
Ahead-head id t l r a = a id t (ground (arith, bytes_beq_iff id id))

size-remove :
    (r : MemoryRegistry) (id : Bytes) (t : Tunnel)
    → GoMap.get r.tunnels id ≡ some t
    → GoMap.size (remove_tunnel r id t).tunnels + 1 ≡ GoMap.size r.tunnels
unfolding remove_tunnel
size-remove r id t h = GoMap.size-delete r.tunnels id t h

clean_loop-count :
    (now : ℤ) (l : List (Bytes × Tunnel)) (r : MemoryRegistry) (n : ℕ)
    → Unique l
    → Ahead l r
    → let (r', m) = clean_loop now l r n in m + GoMap.size r'.tunnels ≡ n + GoMap.size r.tunnels
unfolding clean_loop
clean_loop-count now [] r n u a = refl
clean_loop-count now ((id, t) ∷ l) r n u a = elim (Bool-cases (is_expired now t)) [
  | inl old ↦
      rw (old, clean_loop)
        (clean_loop-count now l (remove_tunnel r id t) (suc n) u.1 (Ahead-removed id t l r u.0 a)
          ∙ omega (arith, size-remove r id t (Ahead-head id t l r a)))
  | inr young ↦ rw (young, clean_loop) (clean_loop-count now l r n u.1 (Ahead-kept id t l r u.0 a))
]

clean_loop-Inv :
    (now : ℤ) (l : List (Bytes × Tunnel)) (r : MemoryRegistry) (n : ℕ)
    → Unique l
    → Ahead l r
    → Inv r
    → Inv (clean_loop now l r n).0
unfolding clean_loop
clean_loop-Inv now [] r n u a v = v
clean_loop-Inv now ((id, t) ∷ l) r n u a v = elim (Bool-cases (is_expired now t)) [
  | inl old ↦
      rw (old, clean_loop)
        (clean_loop-Inv now l (remove_tunnel r id t) (suc n) u.1 (Ahead-removed id t l r u.0 a)
          (remove_tunnel-Inv r id t (Ahead-head id t l r a) v))
  | inr young ↦ rw (young, clean_loop) (clean_loop-Inv now l r n u.1 (Ahead-kept id t l r u.0 a) v)
]

-- After a clean-up the tunnel under each id is there exactly if it was there and had not expired; the
-- count that is returned is the number of tunnels that went.
pub clean_expired_lem :
    (r : MemoryRegistry) (now : ℤ)
    → let (r', n) = clean_expired r now in
      ((j : Bytes) → GoMap.get r'.tunnels j ≡ unless (by_test now) j (GoMap.get r.tunnels j))
      × (n + GoMap.size r'.tunnels ≡ GoMap.size r.tunnels)
unfolding clean_expired
clean_expired_lem r now = (
  λ j.
      clean_loop-get now (GoMap.range r.tunnels) r 0 j (GoMap.range-Unique r.tunnels)
      ∙ rw (GoMap.find-range r.tunnels j) (ground arith),
  clean_loop-count now (GoMap.range r.tunnels) r 0 (GoMap.range-Unique r.tunnels) ahead
      ∙ omega arith,
)
  where
    ahead : Ahead (GoMap.range r.tunnels) r
    ahead j t h = rw GoMap.find-range at h

-- A clean-up of a registry whose two maps agree leaves them in agreement.
pub clean_expired-Inv : (r : MemoryRegistry) (now : ℤ) → Inv r → Inv (clean_expired r now).0
unfolding clean_expired
clean_expired-Inv r now v =
    clean_loop-Inv now (GoMap.range r.tunnels) r 0 (GoMap.range-Unique r.tunnels)
      (λ j t h. rw GoMap.find-range at h) v
