-- ===== src/GoMap.antt =====
-- Go's built-in map: a finite map whose keys are distinct. The representation is private to this
-- module and the ones below it: clients have the operations and `map_laws`.
pub mod Assoc
use go_tunnel.Base.{
  ℕ, ◌-◌, ◌+◌, ◌≡◌, refl, Bool, true, false, Option, none, some, List, [], ◌∷◌, arith, length, Eq,
  ◌==◌, if◌then◌else◌,
}
use Assoc.{
  Entries, Unique, find, without, keep, find-without, without-Unique, Unique-put, keep-Unique,
  find-keep, unless, length-without, Contains, Contains-find, find-Contains,
}

pub record GoMap {ℓ} (K : Type 0) ⦃e : Eq K⦄ (V : Type ℓ) : Type ℓ where
  entries : Entries K V
  unique : Unique entries

module _ {ℓ} {K : Type 0} ⦃e : Eq K⦄ {V : Type ℓ} where
  -- make(map[K]V)
  unfoldable pub empty : GoMap K V
  empty = record { entries = []; unique = tt }

  -- v, ok := m[k]
  unfoldable pub get : GoMap K V → K → Option V
  get m k = find k m.entries

  -- delete(m, k)
  unfoldable pub delete : GoMap K V → K → GoMap K V
  delete m k = record {
    entries = without k m.entries;
    unique = without-Unique k m.entries m.unique;
  }

  -- m[k] = v
  unfoldable pub put : GoMap K V → K → V → GoMap K V
  put m k v = record {
    entries = (k, v) ∷ without k m.entries;
    unique = Unique-put k v m.entries m.unique;
  }

  -- for k, v := range m { if p(k, v) { delete(m, k) } }
  unfoldable pub delete_if : GoMap K V → (K → V → Bool) → GoMap K V
  delete_if m p = record { entries = keep p m.entries; unique = keep-Unique p m.entries m.unique }

  -- The entries in an order that `range m` may take; Go leaves the order open.
  unfoldable pub range : GoMap K V → List (K × V)
  range m = m.entries

  -- len(m)
  unfoldable pub size : GoMap K V → ℕ
  size m = length m.entries

  pub get-empty : (k : K) → get empty k ≡ none
  unfolding get empty find
  get-empty k = refl

  pub get-delete :
      (m : GoMap K V) (k j : K) → get (delete m k) j ≡ (if k == j then none else get m j)
  unfolding get delete
  get-delete m k j = find-without k j m.entries

  pub get-put :
      (m : GoMap K V) (k j : K) (v : V) → get (put m k v) j ≡ (if k == j then some v else get m j)
  unfolding get put find
  get-put m k j v = simp find-without (ground arith)

  pub get-delete_if :
      (m : GoMap K V) (p : K → V → Bool) (j : K) → get (delete_if m p) j ≡ unless p j (get m j)
  unfolding get delete_if
  get-delete_if m p j = find-keep p j m.entries m.unique

  -- `range` lists each entry of the map, under its key and once.
  pub range-Unique : (m : GoMap K V) → Unique (range m)
  unfolding range
  range-Unique m = m.unique

  pub find-range : (m : GoMap K V) (k : K) → find k (range m) ≡ get m k
  unfolding range get
  find-range m k = refl

  pub size-delete :
      (m : GoMap K V) (k : K) (v : V) → get m k ≡ some v → size (delete m k) + 1 ≡ size m
  unfolding size get delete
  size-delete m k v h = length-without k v m.entries m.unique h

module _ {K : Type 0} ⦃e : Eq K⦄ {V : Type 0} where
  pub Contains-get : (m : GoMap K V) (k : K) (v : V) → Contains k v (range m) → get m k ≡ some v
  unfolding range get
  Contains-get m k v c = Contains-find k v m.entries m.unique c

  pub get-Contains : (m : GoMap K V) (k : K) (v : V) → get m k ≡ some v → Contains k v (range m)
  unfolding range get
  get-Contains m k v h = find-Contains k v m.entries h

pub ruleset map_laws = (get-empty, get-delete, get-put, get-delete_if)
