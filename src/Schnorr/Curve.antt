-- ===== src/Schnorr/Curve.antt =====
-- schnorr.rs, the points of secp256k1 in affine coordinates.
pub mod Laws
use near_mock.Base.{
  ℕ, zero, suc, ◌/◌, ◌%◌, Bool, true, false, ◌&&◌, List, [], ◌∷◌, ◌==◌, if◌then◌else◌,
}
use near_mock.Base.{ℕ_eq, bytes_Key}
use near_mock.Schnorr.Field.{fe_add, fe_sub}
use near_mock.Schnorr.Product.{fe_mul, fe_sqr}
use near_mock.Schnorr.Power.{fe_inv}

pub record Pt : Type 0 where
  pub x : List ℕ
  pub y : List ℕ
  pub inf : Bool

abbrev pub zero_limbs : List ℕ
zero_limbs = 0 ∷ 0 ∷ 0 ∷ 0 ∷ []

abbrev pub infinity : Pt
infinity = record { x = zero_limbs; y = zero_limbs; inf = true }

unfoldable pub is_zero : List ℕ → Bool
is_zero [] = true
is_zero (a ∷ r) = a == 0 && is_zero r

abbrev three : List ℕ
three = 3 ∷ 0 ∷ 0 ∷ 0 ∷ []

-- The point on the line with slope `lambda` through points with abscissas `ax`, `bx`.
abbrev pub third_x : List ℕ → List ℕ → List ℕ → List ℕ
third_x lambda ax bx = fe_sub (fe_sub (fe_sqr lambda) ax) bx

abbrev pub third_y : List ℕ → Pt → List ℕ → List ℕ
third_y lambda a nx = fe_sub (fe_mul lambda (fe_sub a.x nx)) a.y

abbrev pub double_slope : Pt → List ℕ
double_slope a = fe_mul (fe_mul three (fe_sqr a.x)) (fe_inv (fe_add a.y a.y))

abbrev pub double_x : Pt → List ℕ
double_x a = fe_sub (fe_sqr (double_slope a)) (fe_add a.x a.x)

unfoldable pub point_double : Pt → Pt
unfolding is_zero
point_double a =
    if a.inf
    then infinity
    else if is_zero (fe_add a.y a.y)
    then infinity
    else record { x = double_x a; y = third_y (double_slope a) a (double_x a); inf = false }

abbrev pub add_slope : Pt → Pt → List ℕ
add_slope a b = fe_mul (fe_sub b.y a.y) (fe_inv (fe_sub b.x a.x))

unfoldable pub point_add : Pt → Pt → Pt
point_add a b =
    let nx = third_x (add_slope a b) a.x b.x in
    if a.inf
    then b
    else if b.inf
    then a
    else if a.x == b.x
    then if a.y == b.y then point_double a else infinity
    else record { x = nx; y = third_y (add_slope a b) a nx; inf = false }

-- The inner loop over the bits of one limb of the scalar, lowest first: the sum so far and the
-- power-of-two multiple of the base.
unfoldable pub mul_bits : ℕ → ℕ → Pt × Pt → Pt × Pt
mul_bits zero bits (r, b) = (r, b)
mul_bits (suc n) bits (r, b) =
    mul_bits n (bits / 2) (if bits % 2 == 0 then r else point_add r b, point_double b)

unfoldable pub mul_words : List ℕ → Pt × Pt → Pt × Pt
unfolding mul_bits
mul_words [] s = s
mul_words (w ∷ ws) s = mul_words ws (mul_bits 64 w s)

unfoldable pub scalar_mul : List ℕ → Pt → Pt
unfolding mul_words
scalar_mul k base = (mul_words k (infinity, base)).0
