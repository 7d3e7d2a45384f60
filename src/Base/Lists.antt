-- ===== src/Base/Lists.antt =====
-- Lists measured and cut by native numbers, and byte-string tests.
use Prim.Native.Nat.{ℕ, zero, suc, ◌+◌}
use mathlib.Core.Path.{◌≡◌, refl, ap}
use mathlib.Core.Bool.{Bool, true, false, ◌&&◌, ◌||◌}
use mathlib.Core.List.{List, [], ◌∷◌, ◌++◌}
use mathlib.Core.Option.{Option, none, some}
use native.Mathlib.Omega.{arith}
use near_mock.Base.Tests.{Bytes, nat_eq, bytes_eq}

module _ {ℓ} {A : Type ℓ} where
  abbrev pub length : List A → ℕ
  length [] = 0
  length (x ∷ xs) = suc (length xs)

  abbrev pub get_elem? : List A → ℕ → Option A
  get_elem? [] i = none
  get_elem? (x ∷ xs) zero = some x
  get_elem? (x ∷ xs) (suc i) = get_elem? xs i

  -- A write out of bounds changes nothing.
  abbrev pub set : List A → ℕ → A → List A
  set [] i v = []
  set (x ∷ xs) zero v = v ∷ xs
  set (x ∷ xs) (suc i) v = x ∷ set xs i v

  abbrev pub take : ℕ → List A → List A
  take zero xs = []
  take (suc n) [] = []
  take (suc n) (x ∷ xs) = x ∷ take n xs

  abbrev pub drop : ℕ → List A → List A
  drop zero xs = xs
  drop (suc n) [] = []
  drop (suc n) (x ∷ xs) = drop n xs

  abbrev pub replicate : ℕ → A → List A
  replicate zero a = []
  replicate (suc n) a = a ∷ replicate n a

  pub length-append : (xs ys : List A) → length (xs ++ ys) ≡ length xs + length ys
  length-append [] ys = omega arith
  length-append (x ∷ xs) ys = omega (arith, length-append xs ys)

  pub length-replicate : (n : ℕ) (a : A) → length (replicate n a) ≡ n
  length-replicate zero a = refl
  length-replicate (suc n) a = ap suc (length-replicate n a)

-- `slice.starts_with(prefix)`.
abbrev pub starts_with : Bytes → Bytes → Bool
starts_with ks [] = true
starts_with [] (p ∷ ps) = false
starts_with (k ∷ ks) (p ∷ ps) = nat_eq k p && starts_with ks ps

-- `slice.ends_with(suffix)`: the slice or one of its tails is the suffix.
abbrev pub ends_with : Bytes → Bytes → Bool
ends_with [] suffix = bytes_eq [] suffix
ends_with (k ∷ ks) suffix = bytes_eq (k ∷ ks) suffix || ends_with ks suffix

pub starts_with-append : (p ks : Bytes) → starts_with (p ++ ks) p ≡ true
starts_with-append [] ks = refl
starts_with-append (a ∷ p) ks = ground (arith, starts_with-append p ks)
