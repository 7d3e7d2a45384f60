-- ===== src/Schnorr/Verify/Even.antt =====
-- schnorr.rs, `schnorr_verify_impl`: which of the two ordinates is taken.
use mathlib.Core.List.{reverse_aux}
use native.Mathlib.Nat.{mul-add, mul_comm}
use near_mock.Base.{
  ℕ, ◌+◌, ◌*◌, ◌/◌, ◌%◌, ◌<◌, ◌≡◌, refl, sym, ap, ◌∙◌, Bool, false, List, [], ◌∷◌, ◌++◌, Bytes,
  arith, ltb, ltb→lt, ltb→ge, ◌==◌, Bool-cases, inl, inr,
}
use near_mock.Base.{ℕ_eq}
use near_mock.Schnorr.Limbs.{value, IsLimbs, sub256, value-lt}
use near_mock.Schnorr.Field.{p, p_limbs, fe_sub}
use near_mock.Schnorr.Field.Laws.{IsFe, sub256-value}
use near_mock.Schnorr.Octets.{fe_to_be_bytes, le_of_limbs, to_le_bytes}
use near_mock.Schnorr.Verify.{last_odd, is_odd}

last_odd-reverse_aux :
    (xs acc : Bytes) (b : ℕ) (u v : Bool)
    → last_odd u (reverse_aux xs (b ∷ acc)) ≡ last_odd v (b ∷ acc)
last_odd-reverse_aux [] acc b u v = refl
last_odd-reverse_aux (x ∷ xs) acc b u v = last_odd-reverse_aux xs (b ∷ acc) x u v

-- The test of the last byte is that of the number.
pub is_odd-value : (a : List ℕ) → IsLimbs 4 a → is_odd a ≡ (value a % 2 == 1)
unfolding is_odd fe_to_be_bytes le_of_limbs to_le_bytes
is_odd-value [] h = elim h [ ]
is_odd-value (x ∷ r) h =
    last_odd-reverse_aux (to_le_bytes 7 (x / 256) ++ le_of_limbs r) [] (x % 256) false false
    ∙ ap (λ (n : ℕ). n == 1) (omega arith)

-- The negative of a canonical element that is not 0.
pub fe_sub-negated :
    (a : List ℕ)
    → IsFe a
    → 0 < value a
    → IsFe (fe_sub p_limbs a) × (value (fe_sub p_limbs a) + value a ≡ p)
unfolding fe_sub
fe_sub-negated a ha positive =
    let (limbs, small, total) = sub256-value p_limbs a (omega arith) ha.0 in
    elim (Bool-cases (ltb 0 (sub256 p_limbs a).1)) [
      | inl e ↦
          absurd (omega (arith, total, ltb→lt 0 (sub256 p_limbs a).1 e, value-lt 4 _ limbs, small))
      | inr e ↦
          rw (e, fe_sub)
            (
              (limbs, omega (arith, total, ltb→ge 0 (sub256 p_limbs a).1 e)),
              omega (arith, total, ltb→ge 0 (sub256 p_limbs a).1 e),
            )
    ]

-- A number and its negative have the same square.
pub square-negated : (y z : ℕ) → z + y ≡ p → z * z % p ≡ y * y % p
square-negated y z e =
    let left : z * z + z * y ≡ z * p = sym (mul-add z z y) ∙ ap (λ t. z * t) e in
    let right : y * z + y * y ≡ y * p = sym (mul-add y z y) ∙ ap (λ t. y * t) e in
    omega (arith, left, right, mul_comm y z)
