-- ===== src/GoMap/Assoc.antt =====
-- The entries of a map, with distinct keys.
use go_tunnel.Base.{
  ◌+◌, ◌≡◌, refl, Bool, Option, none, some, List, [], ◌∷◌, arith, length, Eq, ◌==◌, if◌then◌else◌,
  Bool-cases, inl, inr, ◌⊎◌,
}

abbrev pub Entries {ℓ} : Type 0 → Type ℓ → Type ℓ
Entries K V = List (K × V)

module _ {ℓ} {K : Type 0} ⦃e : Eq K⦄ {V : Type ℓ} where
  unfoldable pub find : K → Entries K V → Option V
  find k [] = none
  find k ((j, v) ∷ l) = if j == k then some v else find k l

  unfoldable pub without : K → Entries K V → Entries K V
  without k [] = []
  without k ((j, v) ∷ l) = let rest = without k l in if j == k then rest else (j, v) ∷ rest

  -- What `range m { if p(k, v) { delete(m, k) } }` leaves.
  unfoldable pub keep : (K → V → Bool) → Entries K V → Entries K V
  keep p [] = []
  keep p ((j, v) ∷ l) = let rest = keep p l in if p j v then rest else (j, v) ∷ rest

  abbrev pub Unique : Entries K V → Type ℓ
  Unique [] = Unit {ℓ}
  Unique ((k, v) ∷ l) = (find k l ≡ none) × Unique l

  abbrev pub unless : (K → V → Bool) → K → Option V → Option V
  unless p k none = none
  unless p k (some v) = if p k v then none else some v

  pub find-without :
      (k j : K) (l : Entries K V) → find j (without k l) ≡ (if k == j then none else find j l)
  unfolding find without
  find-without k j [] = ground arith
  find-without k j ((i, v) ∷ l) =
      ground (arith, find-without k j l, e.beq_iff i k, e.beq_iff i j, e.beq_iff k j)

  pub without-Unique : (k : K) (l : Entries K V) → Unique l → Unique (without k l)
  unfolding without
  without-Unique k [] u = tt
  without-Unique k ((i, v) ∷ l) u = ground (arith, without-Unique k l u.1, find-without k i l)

  pub Unique-put : (k : K) (v : V) (l : Entries K V) → Unique l → Unique ((k, v) ∷ without k l)
  Unique-put k v l u = (ground (arith, find-without k k l, e.beq_iff k k), without-Unique k l u)

  -- Deleting by a test keeps what fails it.
  pub find-keep :
      (p : K → V → Bool) (j : K) (l : Entries K V)
      → Unique l
      → find j (keep p l) ≡ unless p j (find j l)
  unfolding find keep
  find-keep p j [] u = refl
  find-keep p j ((i, v) ∷ l) u = ground (arith, find-keep p j l u.1, e.beq_iff i j, u.0)

  pub keep-Unique : (p : K → V → Bool) (l : Entries K V) → Unique l → Unique (keep p l)
  unfolding keep
  keep-Unique p [] u = tt
  keep-Unique p ((i, v) ∷ l) u = ground (arith, keep-Unique p l u.1, find-keep p i l u.1, u.0)

  without_missing : (k : K) (l : Entries K V) → find k l ≡ none → without k l ≡ l
  unfolding find without
  without_missing k [] h = refl
  without_missing k ((j, w) ∷ l) h = ground (arith, without_missing k l)

  -- Deleting a key that is there takes out one entry.
  pub length-without :
      (k : K) (v : V) (l : Entries K V)
      → Unique l
      → find k l ≡ some v
      → length (without k l) + 1 ≡ length l
  unfolding find without
  length-without k v [] u h = cc
  length-without k v ((j, w) ∷ l) u h = elim (Bool-cases (j == k)) [
    | inl t ↦ rw t (rw (without_missing k l (ground (arith, e.beq_iff j k, u.0))) (omega arith))
    | inr f ↦ rw f (omega (arith, length-without k v l u.1 (ground arith)))
  ]

module _ {K : Type 0} ⦃e : Eq K⦄ {V : Type 0} where
  -- The entry `k ↦ v` is listed.
  abbrev pub Contains : K → V → Entries K V → Type 0
  Contains k v [] = ⊥
  Contains k v ((j, w) ∷ l) = ((k ≡ j) × (v ≡ w)) ⊎ Contains k v l

  pub Contains-find :
      (k : K) (v : V) (l : Entries K V) → Unique l → Contains k v l → find k l ≡ some v
  unfolding find
  Contains-find k v [] u c = absurd c
  Contains-find k v ((j, w) ∷ l) u (inl h) = ground (arith, e.beq_iff j k)
  Contains-find k v ((j, w) ∷ l) u (inr h) =
      ground (arith, e.beq_iff j k, Contains-find k v l u.1 h, u.0)

  pub find-Contains : (k : K) (v : V) (l : Entries K V) → find k l ≡ some v → Contains k v l
  unfolding find
  find-Contains k v [] h = cc
  find-Contains k v ((j, w) ∷ l) h = elim (Bool-cases (j == k)) [
    | inl t ↦ inl (ground (arith, e.beq_iff j k))
    | inr f ↦ inr (find-Contains k v l (ground arith))
  ]
