-- ===== src/Schnorr/Power.antt =====
-- schnorr.rs, `fe_inv` and `fe_sqrt`: powers by a fixed exponent, most significant bit first.
pub mod Laws
use near_mock.Base.{ℕ, zero, suc, ◌+◌, ◌*◌, ◌/◌, ◌%◌, ◌^◌, Bool, List, [], ◌∷◌, ltb, if◌then◌else◌}
use near_mock.Schnorr.Limbs.{word}
use near_mock.Schnorr.Product.{fe_mul, fe_sqr}

-- One round of the inner loop: square, and multiply where the top bit is set.
unfoldable pub power_step : List ℕ → ℕ → List ℕ → List ℕ
power_step a bits r = if ltb 0 (bits / 2 ^ 63) then fe_mul (fe_sqr r) a else fe_sqr r

-- The inner loop; `bits <<= 1` drops the top bit.
unfoldable pub power_bits : ℕ → List ℕ → ℕ → List ℕ → List ℕ
unfolding power_step
power_bits zero a bits r = r
power_bits (suc rounds) a bits r = power_bits rounds a (bits * 2 % word) (power_step a bits r)

-- The outer loop, over the limbs of the exponent from the top.
unfoldable pub power_words : List ℕ → List ℕ → List ℕ → List ℕ
unfolding power_bits
power_words [] a r = r
power_words (w ∷ ws) a r = power_words ws a (power_bits 64 a w r)

abbrev pub one : List ℕ
one = 1 ∷ 0 ∷ 0 ∷ 0 ∷ []

-- `exp[3 - w]` for w = 0, 1, 2, 3: p - 2.
abbrev pub inv_exp : List ℕ
inv_exp = 0xFFFFFFFFFFFFFFFF ∷ 0xFFFFFFFFFFFFFFFF ∷ 0xFFFFFFFFFFFFFFFF ∷ 0xFFFFFFFEFFFFFC2D ∷ []

-- (p + 1) / 4.
abbrev pub sqrt_exp : List ℕ
sqrt_exp = 0x3FFFFFFFFFFFFFFF ∷ 0xFFFFFFFFFFFFFFFF ∷ 0xFFFFFFFFFFFFFFFF ∷ 0xFFFFFFFFBFFFFF0C ∷ []

unfoldable pub fe_inv : List ℕ → List ℕ
fe_inv a = power_words inv_exp a one

unfoldable pub fe_sqrt : List ℕ → List ℕ
fe_sqrt a = power_words sqrt_exp a one
