-- ===== src/Schnorr/Product.antt =====
-- schnorr.rs, `fe_mul` and `fe_sqr`: the product on 64-bit limbs in 128-bit accumulators, and its
-- reduction by 2^256 = DELTA mod p. `r[i + j]` is the j-th entry of the part of `r` that starts at i,
-- so the outer loop fixes one entry of `r` with each round and goes on with the rest.
pub mod Rows
pub mod Laws
use near_mock.Base.{
  ℕ, ◌+◌, ◌*◌, ◌/◌, ◌%◌, ◌^◌, Bool, List, [], ◌∷◌, ltb, if◌then◌else◌, take, drop, replicate,
}
use near_mock.Schnorr.Limbs.{word, add256}
use near_mock.Schnorr.Field.{delta, fold_carry}

abbrev pub dword : ℕ
dword = 2 ^ 128

-- The carry out of `u128::overflowing_add`.
abbrev pub carry128 : ℕ → ℕ → ℕ
carry128 a b = if ltb (a + b) dword then 0 else 1

-- The sum in one step of the inner loop, and what is carried on from it.
abbrev pub step_sum : ℕ → ℕ → ℕ → ℕ → ℕ
step_sum ai bj r carry = ((r + ai * bj % dword) % dword + carry) % dword

abbrev pub step_carry : ℕ → ℕ → ℕ → ℕ → ℕ
step_carry ai bj r carry =
    ((carry128 r (ai * bj % dword) + carry128 ((r + ai * bj % dword) % dword) carry) * word
      + step_sum ai bj r carry / word)
    % dword

-- The inner loop for one limb `ai`, with `r[i + 4] += carry` at its end.
unfoldable pub mul_row : ℕ → List ℕ → List ℕ → ℕ → List ℕ
mul_row ai bs [] carry = []
mul_row ai [] (r ∷ rs) carry = (r + carry) % dword ∷ rs
mul_row ai (b ∷ bs) (r ∷ rs) carry =
    step_sum ai b r carry % word ∷ mul_row ai bs rs (step_carry ai b r carry)

unfoldable pub mul_rows : List ℕ → List ℕ → List ℕ → List ℕ
mul_rows [] bs rs = rs
mul_rows (a ∷ r) bs rs = elim (mul_row a bs rs 0) [ [] ↦ [] | x ∷ xs ↦ x ∷ mul_rows r bs xs ]

-- `for k in 0..7 { r[k + 1] += r[k] >> 64; r[k] &= mask; }`, with the carry into the head.
unfoldable pub carry_from : ℕ → List ℕ → List ℕ
carry_from c [] = []
carry_from c (x ∷ []) = (x + c) % dword ∷ []
carry_from c (x ∷ y ∷ r) = (x + c) % dword % word ∷ carry_from ((x + c) % dword / word) (y ∷ r)

-- `low[i] + r[i + 4] * DELTA`, limb by limb.
abbrev pub fold_sum : ℕ → ℕ → ℕ → ℕ
fold_sum l h carry = (h * delta % dword + l + carry) % dword

unfoldable pub fold_high : List ℕ → List ℕ → ℕ → List ℕ × ℕ
fold_high [] hs carry = ([], carry)
fold_high (l ∷ ls) [] carry = ([], carry)
fold_high (l ∷ ls) (h ∷ hs) carry =
    let (rest, c') = fold_high ls hs (fold_sum l h carry / word) in
    (fold_sum l h carry % word ∷ rest, c')

-- `[lo_cd, hi_cd, 0, 0]`
abbrev pub carry_limbs : ℕ → List ℕ
carry_limbs carry = carry * delta % dword % word ∷ carry * delta % dword / word % word ∷ 0 ∷ 0 ∷ []

-- From `r`, after the carries, to the reduced result.
unfoldable pub reduce : List ℕ → List ℕ
reduce r =
    let (low, carry) = fold_high (take 4 r) (drop 4 r) 0 in
    fold_carry (add256 low (carry_limbs carry))

unfoldable pub fe_mul : List ℕ → List ℕ → List ℕ
fe_mul a b = reduce (carry_from 0 (mul_rows a b (replicate 8 0)))

unfoldable pub fe_sqr : List ℕ → List ℕ
unfolding fe_mul
fe_sqr a = fe_mul a a
