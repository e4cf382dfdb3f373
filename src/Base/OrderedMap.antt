-- ===== src/Base/OrderedMap.antt =====
-- `QMap` over numbers: an association list in ascending order of the keys.
use bachelor_s_thesis.Base.Tests.{ltb, nat_beq, if◌then◌else◌}
use Prim.Native.Nat.{ℕ, suc, ◌≤◌, ◌<◌}
use mathlib.Core.Path.{◌≡◌, refl}
use mathlib.Core.Option.{Option, none, some}
use mathlib.Core.List.{List, [], ◌∷◌, ◌++◌}
use native.Mathlib.Omega.{arith}

abbrev pub OrderedMap {ℓ} : Type ℓ → Type ℓ
OrderedMap V = List (ℕ × V)

module _ {ℓ} {V : Type ℓ} where
  unfoldable pub lookup : ℕ → OrderedMap V → Option V
  lookup k [] = none
  lookup k ((j, v) ∷ m) = if nat_beq j k then some v else lookup k m

  unfoldable pub insert : ℕ → V → OrderedMap V → OrderedMap V
  insert k v [] = (k, v) ∷ []
  insert k v ((j, w) ∷ m) =
      let rest = insert k v m in
      if nat_beq j k then (k, v) ∷ m else if ltb k j then (k, v) ∷ (j, w) ∷ m else (j, w) ∷ rest

  unfoldable pub remove : ℕ → OrderedMap V → OrderedMap V
  remove k [] = []
  remove k ((j, w) ∷ m) = let rest = remove k m in if nat_beq j k then rest else (j, w) ∷ rest

  -- Every key is at least `n`, and the keys ascend.
  abbrev pub Ascends : ℕ → OrderedMap V → Type 0
  Ascends n [] = Unit {0}
  Ascends n ((k, v) ∷ m) = (n ≤ k) × Ascends (suc k) m

  -- Every key is below `n`.
  abbrev pub Below : ℕ → OrderedMap V → Type 0
  Below n [] = Unit {0}
  Below n ((k, v) ∷ m) = (k < n) × Below n m

  pub lookup-insert :
      (k j : ℕ) (v : V) (m : OrderedMap V)
      → lookup j (insert k v m) ≡ (if nat_beq k j then some v else lookup j m)
  unfolding lookup insert
  lookup-insert k j v [] = refl
  lookup-insert k j v ((i, w) ∷ m) = ground (arith, lookup-insert k j v m)

  pub lookup-remove :
      (k j : ℕ) (m : OrderedMap V)
      → lookup j (remove k m) ≡ (if nat_beq k j then none else lookup j m)
  unfolding lookup remove
  lookup-remove k j [] = ground arith
  lookup-remove k j ((i, w) ∷ m) = ground (arith, lookup-remove k j m)

  -- A key above all others goes to the end.
  pub insert-append :
      (k : ℕ) (v : V) (m : OrderedMap V) → Below k m → insert k v m ≡ m ++ (k, v) ∷ []
  unfolding insert
  insert-append k v [] h = refl
  insert-append k v ((j, w) ∷ m) h = ground (arith, insert-append k v m h.1)

  pub Ascends-insert :
      (n k : ℕ) (v : V) (m : OrderedMap V) → n ≤ k → Ascends n m → Ascends n (insert k v m)
  unfolding insert
  Ascends-insert n k v [] h s = (h, tt)
  Ascends-insert n k v ((j, w) ∷ m) h s = ground (arith, Ascends-insert (suc j) k v m)

  pub Below-insert :
      (n k : ℕ) (v : V) (m : OrderedMap V) → k < n → Below n m → Below n (insert k v m)
  unfolding insert
  Below-insert n k v [] h b = (h, tt)
  Below-insert n k v ((j, w) ∷ m) h b = ground (arith, Below-insert n k v m h b.1)
