-- ===== src/Base/HashSet.antt =====
-- `QSet` of texts: a list. Insertion leaves a member where it is.
use bachelor_s_thesis.Base.Tests.{Eq, ◌==◌, if◌then◌else◌}
use mathlib.Core.Path.{◌≡◌, refl}
use mathlib.Core.Bool.{Bool, true, false, not, ◌&&◌, ◌||◌}
use mathlib.Core.List.{List, [], ◌∷◌}
use native.Mathlib.Omega.{arith}

module _ {ℓ} {A : Type ℓ} ⦃e : Eq A⦄ where
  unfoldable pub contains : A → List A → Bool
  contains a [] = false
  contains a (x ∷ xs) = (x == a) || contains a xs

  unfoldable pub insert : A → List A → List A
  unfolding contains
  insert a xs = if contains a xs then xs else a ∷ xs

  unfoldable pub remove : A → List A → List A
  remove a [] = []
  remove a (x ∷ xs) = let rest = remove a xs in if x == a then rest else x ∷ rest

  contains_eq : (a b : A) (xs : List A) → (a == b) ≡ true → contains b xs ≡ contains a xs
  contains_eq a b xs h = rw ((e.agrees a b).0 h) refl

  pub contains-insert :
      (a b : A) (xs : List A) → contains b (insert a xs) ≡ ((a == b) || contains b xs)
  unfolding contains insert
  contains-insert a b xs = ground (arith, contains_eq a b xs)

  pub contains-remove :
      (a b : A) (xs : List A) → contains b (remove a xs) ≡ (not (a == b) && contains b xs)
  unfolding contains remove
  contains-remove a b [] = ground arith
  contains-remove a b (x ∷ xs) =
      ground (arith, e.agrees a b, e.agrees x a, e.agrees x b, contains-remove a b xs)
