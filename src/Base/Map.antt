-- ===== src/Base/Map.antt =====
-- `std::collections::HashMap` as an association list with at most one entry for a key. The order of
-- the entries stands for the iteration order, which the code never relies on.

use mathlib.Core.Path.{◌≡◌}
use mathlib.Core.Bool.{Bool, true, false}
use mathlib.Core.List.{List, [], ◌∷◌}
use mathlib.Core.Option.{Option, none, some}
use native.Mathlib.Omega.{arith}
use near_mock.Base.Tests.{Key, ◌==◌, if◌then◌else◌}

abbrev pub Map {ℓ κ} : Type ℓ → Type κ → Type (ℓ ⊔ κ)
Map K V = List (K × V)

module _ {ℓ κ} {K : Type ℓ} {V : Type κ} ⦃e : Key K⦄ where
  abbrev pub lookup : K → Map K V → Option V
  lookup k [] = none
  lookup k ((j, v) ∷ m) = if j == k then some v else lookup k m

  abbrev pub contains_key : K → Map K V → Bool
  contains_key k m = elim (lookup k m) [ none ↦ false | some _ ↦ true ]

  abbrev pub remove : K → Map K V → Map K V
  remove k [] = []
  remove k ((j, v) ∷ m) = if j == k then remove k m else (j, v) ∷ remove k m

  abbrev pub insert : K → V → Map K V → Map K V
  insert k v m = (k, v) ∷ remove k m

  abbrev pub keep_keys : (K → Bool) → Map K V → Map K V
  keep_keys p [] = []
  keep_keys p ((j, v) ∷ m) = if p j then (j, v) ∷ keep_keys p m else keep_keys p m

  pub lookup-remove :
      (k j : K) (m : Map K V) → lookup j (remove k m) ≡ (if k == j then none else lookup j m)
  lookup-remove k j [] = ground arith
  lookup-remove k j ((i, v) ∷ m) =
      ground (arith, e.same_iff i k, e.same_iff i j, e.same_iff k j, lookup-remove k j m)

  pub lookup-insert :
      (k j : K) (v : V) (m : Map K V)
      → lookup j (insert k v m) ≡ (if k == j then some v else lookup j m)
  lookup-insert k j v m = ground (arith, lookup-remove k j m)

  pub lookup-keep_keys :
      (p : K → Bool) (j : K) (m : Map K V)
      → lookup j (keep_keys p m) ≡ (if p j then lookup j m else none)
  lookup-keep_keys p j [] = ground arith
  lookup-keep_keys p j ((i, v) ∷ m) = ground (arith, e.same_iff i j, lookup-keep_keys p j m)

  -- No key is listed twice.
  abbrev pub IsUnique : Map K V → Type κ
  IsUnique [] = Unit
  IsUnique ((k, v) ∷ m) = (lookup k m ≡ none) × IsUnique m

  pub remove-IsUnique : (k : K) (m : Map K V) → IsUnique m → IsUnique (remove k m)
  remove-IsUnique k [] u = u
  remove-IsUnique k ((j, v) ∷ m) u =
      ground (arith, remove-IsUnique k m u.1, lookup-remove k j m, e.same_iff j k, e.same_iff k j)

  pub insert-IsUnique : (k : K) (v : V) (m : Map K V) → IsUnique m → IsUnique (insert k v m)
  insert-IsUnique k v m u =
      ground (arith, remove-IsUnique k m u, lookup-remove k k m, e.same_iff k k)

  pub keep_keys-IsUnique : (p : K → Bool) (m : Map K V) → IsUnique m → IsUnique (keep_keys p m)
  keep_keys-IsUnique p [] u = u
  keep_keys-IsUnique p ((j, v) ∷ m) u =
      ground (arith, keep_keys-IsUnique p m u.1, lookup-keep_keys p j m)
