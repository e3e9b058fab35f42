-- ===== src/Base/Map.antt =====
-- A map with numbers as keys, as a list of pairs in the order of the keys. It models `BTreeMap`,
-- whose iteration order it has, and `HashMap`, whose order is a parameter where the code goes
-- through it.
use Prim.Native.Nat.{ℕ, suc, ◌+◌, ◌≤◌}
use mathlib.Core.Path.{◌≡◌, refl}
use mathlib.Core.Logic.{◌≢◌}
use mathlib.Core.Bool.{Bool}
use mathlib.Core.List.{List, [], ◌∷◌, ◌++◌}
use mathlib.Core.Option.{Option, none, some}
use native.Mathlib.Omega.{arith}
use bft_kit.Base.Tests.{◌==◌, ltb, if◌then◌else◌, is_some}
use bft_kit.Base.Lists.{length}

abbrev pub Map {ℓ} : Type ℓ → Type ℓ
Map V = List (ℕ × V)

module _ {ℓ} {V : Type ℓ} where
  unfoldable pub lookup : ℕ → Map V → Option V
  lookup k [] = none
  lookup k ((j, v) ∷ m) = if j == k then some v else lookup k m

  -- `contains_key`.
  abbrev pub contains : ℕ → Map V → Bool
  contains k m = is_some (lookup k m)

  unfoldable pub insert : ℕ → V → Map V → Map V
  insert k v [] = (k, v) ∷ []
  insert k v ((j, w) ∷ m) =
      if j == k then (k, v) ∷ m else if ltb k j then (k, v) ∷ (j, w) ∷ m else (j, w) ∷ insert k v m

  unfoldable pub remove : ℕ → Map V → Map V
  remove k [] = []
  remove k ((j, w) ∷ m) = if j == k then remove k m else (j, w) ∷ remove k m

  -- What `m.split_off(&k)` leaves in `m`: the entries below `k`.
  unfoldable pub below : ℕ → Map V → Map V
  below k [] = []
  below k ((j, w) ∷ m) = if ltb j k then (j, w) ∷ below k m else below k m

  -- `m.entry(k).or_default().extend(vs)`.
  unfoldable pub extend_entry : ℕ → List V → Map (List V) → Map (List V)
  extend_entry k vs [] = (k, vs) ∷ []
  extend_entry k vs ((j, ws) ∷ m) =
      if j == k
      then (j, ws ++ vs) ∷ m
      else if ltb k j
      then (k, vs) ∷ (j, ws) ∷ m
      else (j, ws) ∷ extend_entry k vs m

  pub lookup-insert :
      (k q : ℕ) (v : V) (m : Map V)
      → lookup q (insert k v m) ≡ (if k == q then some v else lookup q m)
  unfolding lookup insert
  lookup-insert k q v [] = refl
  lookup-insert k q v ((j, w) ∷ m) = ground (arith, lookup-insert k q v m)

  pub lookup-remove :
      (k q : ℕ) (m : Map V) → lookup q (remove k m) ≡ (if k == q then none else lookup q m)
  unfolding lookup remove
  lookup-remove k q [] = ground arith
  lookup-remove k q ((j, w) ∷ m) = ground (arith, lookup-remove k q m)

  pub length-insert-le : (k : ℕ) (v : V) (m : Map V) → length (insert k v m) ≤ length m + 1
  unfolding insert
  length-insert-le k v [] = omega arith
  length-insert-le k v ((j, w) ∷ m) = ground (arith, length-insert-le k v m)

  pub lookup-insert_self : (k : ℕ) (v : V) (m : Map V) → lookup k (insert k v m) ≡ some v
  lookup-insert_self k v m = ground (arith, lookup-insert k k v m)

  pub lookup-insert_ne :
      (k q : ℕ) (v : V) (m : Map V) → k ≢ q → lookup q (insert k v m) ≡ lookup q m
  lookup-insert_ne k q v m h = ground (arith, lookup-insert k q v m)

  -- All keys lie above `k`, in strictly increasing order.
  abbrev pub IsSortedFrom : ℕ → Map V → Type 0
  IsSortedFrom k [] = Unit
  IsSortedFrom k ((j, w) ∷ m) = (k ≤ j) × IsSortedFrom (suc j) m

  pub insert-IsSortedFrom :
      (n k : ℕ) (v : V) (m : Map V) → n ≤ k → IsSortedFrom n m → IsSortedFrom n (insert k v m)
  unfolding insert
  insert-IsSortedFrom n k v [] h s = omega arith
  insert-IsSortedFrom n k v ((j, w) ∷ m) h s = ground (arith, insert-IsSortedFrom (suc j) k v m)
