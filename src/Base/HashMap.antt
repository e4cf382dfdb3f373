-- ===== src/Base/HashMap.antt =====
-- `QHash`: an association list. Qt leaves the order of the entries open, so what is proved about
-- an iteration is proved for every list.
use bachelor_s_thesis.Base.Tests.{Eq, ◌==◌, beq_refl, if◌then◌else◌, is_some}
use bachelor_s_thesis.Base.Lists.{length}
use Prim.Native.Nat.{◌+◌, ◌≤◌, ◌<◌}
use mathlib.Core.Path.{◌≡◌, refl}
use mathlib.Core.Bool.{Bool, true}
use mathlib.Core.Option.{Option, none, some}
use mathlib.Core.List.{List, [], ◌∷◌}
use native.Mathlib.Omega.{arith}

abbrev pub HashMap {ℓ κ} : Type ℓ → Type κ → Type (ℓ ⊔ κ)
HashMap K V = List (K × V)

module _ {ℓ κ} {K : Type ℓ} {V : Type κ} ⦃e : Eq K⦄ where
  -- `value`, none where the key is missing.
  unfoldable pub lookup : (key : K) → HashMap K V → Option V
  lookup key [] = none
  lookup key ((other, v) ∷ rest) = if other == key then some v else lookup key rest

  -- `insert`, which replaces an entry that is there.
  unfoldable pub insert : (key : K) → V → HashMap K V → HashMap K V
  insert key v [] = (key, v) ∷ []
  insert key v ((other, old) ∷ rest) =
      if other == key then (key, v) ∷ rest else (other, old) ∷ insert key v rest

  unfoldable pub remove : K → HashMap K V → HashMap K V
  remove k [] = []
  remove k ((j, w) ∷ m) = let rest = remove k m in if j == k then rest else (j, w) ∷ rest

  abbrev pub contains : K → HashMap K V → Bool
  contains k m = is_some (lookup k m)

  pub lookup-insert :
      (put asked : K) (v : V) (m : HashMap K V)
      → lookup asked (insert put v m) ≡ (if put == asked then some v else lookup asked m)
  unfolding lookup insert
  lookup-insert put asked v [] = refl
  lookup-insert put asked v ((other, old) ∷ rest) = ground (
    arith,
    e.agrees put asked,
    e.agrees other put,
    e.agrees other asked,
    e.agrees asked asked,
    lookup-insert put asked v rest,
  )

  pub lookup-insert_self : (k : K) (v : V) (m : HashMap K V) → lookup k (insert k v m) ≡ some v
  lookup-insert_self k v m = rw (lookup-insert, beq_refl k)

  pub lookup-remove :
      (k j : K) (m : HashMap K V) → lookup j (remove k m) ≡ (if k == j then none else lookup j m)
  unfolding lookup remove
  lookup-remove k j [] = ground arith
  lookup-remove k j ((i, w) ∷ m) =
      ground (arith, e.agrees k j, e.agrees i k, e.agrees i j, lookup-remove k j m)

  pub length-insert : (k : K) (v : V) (m : HashMap K V) → length (insert k v m) ≤ length m + 1
  unfolding insert
  length-insert k v [] = omega arith
  length-insert k v ((i, w) ∷ m) = ground (arith, length-insert k v m)

  pub length-remove : (k : K) (m : HashMap K V) → length (remove k m) ≤ length m
  unfolding remove
  length-remove k [] = omega arith
  length-remove k ((i, w) ∷ m) = ground (arith, length-remove k m)

  pub length-remove_lt :
      (k : K) (m : HashMap K V) → contains k m ≡ true → length (remove k m) < length m
  unfolding remove lookup
  length-remove_lt k [] h = cc
  length-remove_lt k ((i, w) ∷ m) h = ground (arith, length-remove_lt k m, length-remove k m)
