-- ===== src/Schnorr/Limbs.antt =====
-- schnorr.rs, `add256` and `sub256`: arrays of `u64` limbs, the lowest first, as lists. The loops
-- run over the arrays from the low end, so they are recursions on the lists.
use near_mock.Base.{
  ℕ, zero, suc, ◌+◌, ◌-◌, ◌*◌, ◌%◌, ◌^◌, ◌≤◌, ◌<◌, ◌≡◌, refl, List, [], ◌∷◌, arith, length, ltb,
  if◌then◌else◌,
}

abbrev pub word : ℕ
word = 2 ^ 64

-- The carry out of `overflowing_add`, as a number.
abbrev pub carry_out : ℕ → ℕ → ℕ
carry_out a b = if ltb (a + b) word then 0 else 1

unfoldable pub add_limbs : List ℕ → List ℕ → ℕ → List ℕ × ℕ
add_limbs [] bs c = ([], c)
add_limbs (a ∷ r) [] c = ([], c)
add_limbs (a ∷ r) (b ∷ s) c =
    let s1 = (a + b) % word in
    let s2 = (s1 + c) % word in
    let (rest, c') = add_limbs r s (carry_out a b + carry_out s1 c) in (s2 ∷ rest, c')

unfoldable pub add256 : List ℕ → List ℕ → List ℕ × ℕ
add256 a b = add_limbs a b 0

-- `b[i].wrapping_add(borrow)`
abbrev pub taken : ℕ → ℕ → ℕ
taken b borrow = (b + borrow) % word

abbrev pub borrow_out : ℕ → ℕ → ℕ → ℕ
borrow_out a bi borrow = if ltb bi borrow then 1 else if ltb a bi then 1 else 0

unfoldable pub sub_limbs : List ℕ → List ℕ → ℕ → List ℕ × ℕ
sub_limbs [] bs borrow = ([], borrow)
sub_limbs (a ∷ r) [] borrow = ([], borrow)
sub_limbs (a ∷ r) (b ∷ s) borrow =
    let bi = taken b borrow in
    let (rest, borrow') = sub_limbs r s (borrow_out a bi borrow) in
    ((a + word - bi) % word ∷ rest, borrow')

unfoldable pub sub256 : List ℕ → List ℕ → List ℕ × ℕ
sub256 a b = sub_limbs a b 0

-- The number that limbs stand for, and the weight of a carry out of the top.
abbrev pub value : List ℕ → ℕ
value [] = 0
value (x ∷ r) = x + word * value r

abbrev pub weight : List ℕ → ℕ
weight [] = 1
weight (x ∷ r) = word * weight r

-- `n` limbs of 64 bits.
abbrev pub IsLimbs : ℕ → List ℕ → Type 0
IsLimbs zero [] = Unit
IsLimbs zero (x ∷ r) = ⊥
IsLimbs (suc n) [] = ⊥
IsLimbs (suc n) (x ∷ r) = (x < word) × IsLimbs n r

pub add_limbs-value :
    (n : ℕ) (a b : List ℕ) (c : ℕ)
    → IsLimbs n a
    → IsLimbs n b
    → c ≤ 1
    → let (r, c') = add_limbs a b c in
      IsLimbs n r × (c' ≤ 1) × (value r + weight a * c' ≡ value a + value b + c)
unfolding add_limbs
add_limbs-value zero [] [] c ha hb hc = (tt, hc, omega arith)
add_limbs-value zero [] (b ∷ s) c ha hb hc = elim hb [ ]
add_limbs-value zero (a ∷ r) b c ha hb hc = elim ha [ ]
add_limbs-value (suc n) [] b c ha hb hc = elim ha [ ]
add_limbs-value (suc n) (a ∷ r) [] c ha hb hc = elim hb [ ]
add_limbs-value (suc n) (a ∷ r) (b ∷ s) c ha hb hc =
    let d = carry_out a b + carry_out ((a + b) % word) c in
    let (limbs, small, total) = add_limbs-value n r s d ha.1 hb.1 (ground arith) in
    ((omega arith, limbs), small, ground arith)

pub sub_limbs-value :
    (n : ℕ) (a b : List ℕ) (c : ℕ)
    → IsLimbs n a
    → IsLimbs n b
    → c ≤ 1
    → let (r, c') = sub_limbs a b c in
      IsLimbs n r × (c' ≤ 1) × (value r + value b + c ≡ value a + weight a * c')
unfolding sub_limbs
sub_limbs-value zero [] [] c ha hb hc = (tt, hc, omega arith)
sub_limbs-value zero [] (b ∷ s) c ha hb hc = elim hb [ ]
sub_limbs-value zero (a ∷ r) b c ha hb hc = elim ha [ ]
sub_limbs-value (suc n) [] b c ha hb hc = elim ha [ ]
sub_limbs-value (suc n) (a ∷ r) [] c ha hb hc = elim hb [ ]
sub_limbs-value (suc n) (a ∷ r) (b ∷ s) c ha hb hc =
    let d = borrow_out a (taken b c) c in
    let (limbs, small, total) = sub_limbs-value n r s d ha.1 hb.1 (ground arith) in
    ((omega arith, limbs), small, ground arith)

abbrev pub capacity : ℕ → ℕ
capacity zero = 1
capacity (suc n) = word * capacity n

pub weight-IsLimbs : (n : ℕ) (a : List ℕ) → IsLimbs n a → weight a ≡ capacity n
weight-IsLimbs zero [] h = refl
weight-IsLimbs zero (x ∷ r) h = elim h [ ]
weight-IsLimbs (suc n) [] h = elim h [ ]
weight-IsLimbs (suc n) (x ∷ r) h = omega (arith, weight-IsLimbs n r h.1)

pub value-lt : (n : ℕ) (a : List ℕ) → IsLimbs n a → value a < capacity n
value-lt zero [] h = omega arith
value-lt zero (x ∷ r) h = elim h [ ]
value-lt (suc n) [] h = elim h [ ]
value-lt (suc n) (x ∷ r) h = omega (arith, value-lt n r h.1)

pub size-IsLimbs : (n : ℕ) (a : List ℕ) → IsLimbs n a → length a ≡ n
size-IsLimbs zero [] h = refl
size-IsLimbs zero (x ∷ r) h = elim h [ ]
size-IsLimbs (suc n) [] h = elim h [ ]
size-IsLimbs (suc n) (x ∷ r) h = omega (arith, size-IsLimbs n r h.1)
