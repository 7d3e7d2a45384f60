-- ===== src/Schnorr/Product/Laws.antt =====
-- schnorr.rs, `fe_mul`: multiplication modulo p, for all 256-bit factors.
use near_mock.Base.{
  ℕ, zero, suc, ◌+◌, ◌*◌, ◌/◌, ◌%◌, ◌≤◌, ◌≡◌, List, [], ◌∷◌, arith, length, take, drop, replicate,
}
use near_mock.Schnorr.Limbs.{
  word, value, IsLimbs, add256, weight, weight-IsLimbs, size-IsLimbs, capacity, value-lt,
}
use near_mock.Schnorr.Field.{delta, p, fold_carry}
use near_mock.Schnorr.Field.Laws.{IsFe, add256-value, fold_carry-value}
use near_mock.Schnorr.Product.{fold_sum, fold_high, carry_limbs, reduce, mul_rows, fe_mul}
use near_mock.Schnorr.Product.Rows.{AllLimbs, IsLimbs-of_length, mul_rows-value, carry_from-zero}

-- Folding the high half back in loses nothing, and the carry out of the top stays small.
fold_high-value :
    (n : ℕ) (ls hs : List ℕ) (c : ℕ)
    → IsLimbs n ls
    → IsLimbs n hs
    → c ≤ delta
    → let (r, c') = fold_high ls hs c in
      IsLimbs n r × (c' ≤ delta) × (value r + weight ls * c' ≡ value ls + delta * value hs + c)
unfolding fold_high
fold_high-value zero [] [] c hl hh hc = (tt, hc, omega arith)
fold_high-value zero [] (h ∷ hs) c hl hh hc = elim hh [ ]
fold_high-value zero (l ∷ ls) hs c hl hh hc = elim hl [ ]
fold_high-value (suc n) [] hs c hl hh hc = elim hl [ ]
fold_high-value (suc n) (l ∷ ls) [] c hl hh hc = elim hh [ ]
fold_high-value (suc n) (l ∷ ls) (h ∷ hs) c hl hh hc =
    let (limbs, small, total) =
      fold_high-value n ls hs (fold_sum l h c / word) hl.1 hh.1 (omega arith) in
    ((omega arith, limbs), small, omega arith)

carry_limbs-value :
    (c : ℕ) → c ≤ delta → IsLimbs 4 (carry_limbs c) × (value (carry_limbs c) ≡ c * delta)
carry_limbs-value c h = ((omega arith), omega arith)

-- Cutting limbs in two splits the number.
halves :
    (n m : ℕ) (r : List ℕ)
    → AllLimbs r
    → length r ≡ n + m
    → IsLimbs n (take n r)
      × IsLimbs m (drop n r)
      × (value r ≡ value (take n r) + capacity n * value (drop n r))
halves zero m r h e = (tt, IsLimbs-of_length m r h (omega arith), omega arith)
halves (suc n) m [] h e = absurd (omega arith)
halves (suc n) m (x ∷ r) h e =
    let (low, high, total) = halves n m r h.1 (omega arith) in ((h.0, low), high, omega arith)

-- The last carry, folded in, leaves too little for a carry of its own to overflow again.
last_carry_value :
    (low : List ℕ) (carry : ℕ)
    → IsLimbs 4 low
    → carry ≤ delta
    → IsFe (fold_carry (add256 low (carry_limbs carry)))
      × (value (fold_carry (add256 low (carry_limbs carry))) ≡ (value low + delta * carry) % p)
last_carry_value low carry hl hc =
    let (cl, cv) = carry_limbs-value carry hc in
    let (s, once, summed) = add256-value low (carry_limbs carry) hl cl in
    let (fe, result) =
      fold_carry-value (add256 low (carry_limbs carry)).0 (add256 low (carry_limbs carry)).1 s once
        (omega (arith, value-lt 4 _ s, value-lt 4 _ hl)) in
    (fe, omega arith)

-- The reduction of eight limbs modulo p.
reduce-value :
    (r : List ℕ) → AllLimbs r → length r ≡ 8 → IsFe (reduce r) × (value (reduce r) ≡ value r % p)
unfolding reduce
reduce-value r h e =
    let (l, u, total) = halves 4 4 r h e in
    let (low, small, folded) = fold_high-value 4 (take 4 r) (drop 4 r) 0 l u (omega arith) in
    let (fe, result) =
      last_carry_value (fold_high (take 4 r) (drop 4 r) 0).0 (fold_high (take 4 r) (drop 4 r) 0).1
        low small in
    (fe, omega (arith, rw (weight-IsLimbs 4 (take 4 r) l) at folded))

-- Field multiplication is multiplication modulo p, for any two 256-bit numbers, and its result is
-- canonical.
pub fe_mul-value :
    (a b : List ℕ)
    → IsLimbs 4 a
    → IsLimbs 4 b
    → IsFe (fe_mul a b) × (value (fe_mul a b) ≡ value a * value b % p)
unfolding fe_mul
fe_mul-value a b ha hb =
    let (limbs, size, total) = mul_rows-value 4 4 a b (replicate 8 0) hb ha (omega arith) in
    let (fe, result) =
      reduce-value (mul_rows a b (replicate 8 0)) limbs (omega (arith, size-IsLimbs 4 a ha)) in
    rw (carry_from-zero (mul_rows a b (replicate 8 0)) limbs)
      (fe, omega (arith, rw total at result))
