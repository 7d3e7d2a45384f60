-- ===== src/Schnorr/Product/Rows.antt =====
-- schnorr.rs, the two loops of `fe_mul`: no 128-bit accumulator overflows, and together they
-- compute the full product.
use native.Mathlib.Nat.{mul-le-mul}
use near_mock.Base.{
  ℕ, zero, suc, ◌+◌, ◌-◌, ◌*◌, ◌/◌, ◌%◌, ◌≤◌, ◌<◌, ◌≡◌, refl, List, [], ◌∷◌, arith, length, ap,
}
use near_mock.Schnorr.Limbs.{word, value, IsLimbs}
use near_mock.Schnorr.Product.{dword, step_sum, step_carry, mul_row, mul_rows, carry_from}

-- The largest product of limbs leaves room for two more limbs in 128 bits.
product-le : (a b : ℕ) → a < word → b < word → a * b ≤ (word - 1) * (word - 1)
product-le a b ha hb = mul-le-mul {n₂ = word - 1} {m₂ = word - 1} (omega arith) (omega arith)

-- One step neither overflows nor loses anything.
step_exact :
    (a b r c : ℕ)
    → a < word
    → b < word
    → r < word
    → c < word
    → (step_sum a b r c % word + word * step_carry a b r c ≡ r + a * b + c)
      × (step_carry a b r c < word)
step_exact a b r c ha hb hr hc = ground (arith, product-le a b ha hb)

-- `n` limbs, then `z` zeros: the accumulator before a round of the outer loop.
abbrev pub Shape : ℕ → ℕ → List ℕ → Type 0
Shape zero zero [] = Unit
Shape zero zero (x ∷ r) = ⊥
Shape zero (suc z) [] = ⊥
Shape zero (suc z) (x ∷ r) = (x ≡ 0) × Shape zero z r
Shape (suc n) z [] = ⊥
Shape (suc n) z (x ∷ r) = (x < word) × Shape n z r

pub mul_row-value :
    (n z a : ℕ) (bs rs : List ℕ) (c : ℕ)
    → IsLimbs n bs
    → Shape n (suc z) rs
    → a < word
    → c < word
    → Shape (suc n) z (mul_row a bs rs c)
      × (value (mul_row a bs rs c) ≡ value rs + a * value bs + c)
unfolding mul_row
mul_row-value zero z a [] [] c hb hs ha hc = elim hs [ ]
mul_row-value zero z a [] (r ∷ rs) c hb hs ha hc = ((omega arith, hs.1), omega arith)
mul_row-value zero z a (b ∷ bs) rs c hb hs ha hc = elim hb [ ]
mul_row-value (suc n) z a [] rs c hb hs ha hc = elim hb [ ]
mul_row-value (suc n) z a (b ∷ bs) [] c hb hs ha hc = elim hs [ ]
mul_row-value (suc n) z a (b ∷ bs) (r ∷ rs) c hb hs ha hc =
    let (sum, small) = step_exact a b r c ha hb.0 hs.0 hc in
    let (shape, rest) = mul_row-value n z a bs rs (step_carry a b r c) hb.1 hs.1 ha small in
    ((omega arith, shape), omega arith)

abbrev pub AllLimbs : List ℕ → Type 0
AllLimbs [] = Unit
AllLimbs (x ∷ r) = (x < word) × AllLimbs r

pub IsLimbs-of_length : (n : ℕ) (xs : List ℕ) → AllLimbs xs → length xs ≡ n → IsLimbs n xs
IsLimbs-of_length zero [] h e = tt
IsLimbs-of_length zero (x ∷ r) h e = absurd (omega arith)
IsLimbs-of_length (suc n) [] h e = absurd (omega arith)
IsLimbs-of_length (suc n) (x ∷ r) h e = (h.0, IsLimbs-of_length n r h.1 (omega arith))

Shape-full : (n : ℕ) (rs : List ℕ) → Shape n 0 rs → AllLimbs rs × (length rs ≡ n)
Shape-full zero [] h = (tt, refl)
Shape-full zero (x ∷ r) h = elim h [ ]
Shape-full (suc n) [] h = elim h [ ]
Shape-full (suc n) (x ∷ r) h = let (limbs, size) = Shape-full n r h.1 in ((h.0, limbs), omega arith)

-- What a run of the outer loop over the limbs `xs` has to give.
abbrev pub IsProduct : ℕ → List ℕ → List ℕ → List ℕ → List ℕ → Type 0
IsProduct n xs bs rs result =
    AllLimbs result
    × (length result ≡ length xs + n)
    × (value result ≡ value rs + value xs * value bs)

mul_rows_step :
    (n m a : ℕ) (xs bs rs row : List ℕ)
    → mul_row a bs rs 0 ≡ row
    → Shape (suc n) m row
    → value row ≡ value rs + a * value bs + 0
    → ((rest : List ℕ) → Shape n m rest → IsProduct n xs bs rest (mul_rows xs bs rest))
    → IsProduct n (a ∷ xs) bs rs (mul_rows (a ∷ xs) bs rs)
unfolding mul_rows
mul_rows_step n m a xs bs rs [] e shape total rec = elim shape [ ]
mul_rows_step n m a xs bs rs (x ∷ row) e shape total rec =
    let (limbs, size, rest) = rec row shape.1 in
    rw (e, mul_rows) ((shape.0, limbs), omega arith, omega arith)

-- Schoolbook multiplication computes the product, in as many limbs as both factors have.
pub mul_rows-value :
    (n m : ℕ) (xs bs rs : List ℕ)
    → IsLimbs n bs
    → IsLimbs m xs
    → Shape n m rs
    → IsProduct n xs bs rs (mul_rows xs bs rs)
unfolding mul_rows
mul_rows-value n zero [] bs rs hb ha hs =
    let (limbs, size) = Shape-full n rs hs in (limbs, omega arith, omega arith)
mul_rows-value n zero (a ∷ xs) bs rs hb ha hs = elim ha [ ]
mul_rows-value n (suc m) [] bs rs hb ha hs = elim ha [ ]
mul_rows-value n (suc m) (a ∷ xs) bs rs hb ha hs =
    let (shape, total) = mul_row-value n m a bs rs 0 hb hs ha.0 (omega arith) in
    mul_rows_step n m a xs bs rs (mul_row a bs rs 0) refl shape total
      (λ rest h. mul_rows-value n m xs bs rest hb ha.1 h)

-- The pass over the carries finds none.
pub carry_from-zero : (rs : List ℕ) → AllLimbs rs → carry_from 0 rs ≡ rs
unfolding carry_from
carry_from-zero [] h = refl
carry_from-zero (x ∷ []) h = ap (λ y. y ∷ []) (omega arith)
carry_from-zero (x ∷ y ∷ r) h =
    let none_up : (x + 0) % dword / word ≡ 0 = omega arith in
    rw (none_up, carry_from-zero (y ∷ r) h.1) (ap (λ z. z ∷ y ∷ r) (omega arith))
