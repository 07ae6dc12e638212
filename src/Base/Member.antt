-- ===== src/Base/Member.antt =====
-- Whether a list of comparable values has one, and lists without repetitions.
use mathlib.Core.Path.{◌≡◌, refl}
use mathlib.Core.Bool.{Bool, false, ◌||◌}
use mathlib.Core.List.{List, [], ◌∷◌, ◌++◌}
use native.Mathlib.Omega.{arith}
use go_tunnel.Base.Tests.{Eq, ◌==◌}

module _ {ℓ} {A : Type ℓ} ⦃e : Eq A⦄ where
  abbrev pub contains : List A → A → Bool
  contains [] x = false
  contains (y ∷ ys) x = y == x || contains ys x

  abbrev pub Distinct : List A → Type 0
  Distinct [] = Unit {0}
  Distinct (y ∷ ys) = (contains ys y ≡ false) × Distinct ys

  pub contains-append :
      (xs ys : List A) (x : A) → contains (xs ++ ys) x ≡ (contains xs x || contains ys x)
  contains-append [] ys x = refl
  contains-append (y ∷ xs) ys x = ground (arith, contains-append xs ys x)

  pub Distinct-snoc :
      (xs : List A) (x : A) → contains xs x ≡ false → Distinct xs → Distinct (xs ++ x ∷ [])
  Distinct-snoc [] x out d = (refl, tt)
  Distinct-snoc (y ∷ xs) x out d = (
    ground (arith, contains-append xs (x ∷ []) y, e.beq_iff y x, e.beq_iff x y),
    Distinct-snoc xs x (ground arith) d.1,
  )
