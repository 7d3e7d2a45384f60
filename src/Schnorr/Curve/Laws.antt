-- ===== src/Schnorr/Curve/Laws.antt =====
-- schnorr.rs, `point_double`, `point_add`, `scalar_mul`: the coordinates stay canonical.
use near_mock.Base.{
  ℕ, zero, suc, ◌/◌, ◌%◌, Bool, true, false, List, [], ◌∷◌, ◌==◌, if◌then◌else◌, arith,
}
use near_mock.Base.{ℕ_eq, bytes_Key}
use near_mock.Schnorr.Field.{fe_add, fe_sub}
use near_mock.Schnorr.Field.Laws.{IsFe, fe_add-value, fe_sub-value}
use near_mock.Schnorr.Product.{fe_mul, fe_sqr}
use near_mock.Schnorr.Product.Laws.{fe_mul-value}
use near_mock.Schnorr.Power.{fe_inv}
use near_mock.Schnorr.Power.Laws.{fe_inv-value}
use near_mock.Schnorr.Curve.{
  Pt, infinity, is_zero, third_x, third_y, double_slope, double_x, add_slope, point_double,
  point_add, mul_bits, mul_words, scalar_mul,
}

-- Both coordinates are canonical field elements.
pub record IsCanonical (a : Pt) : Type 0 where
  pub fe_x : IsFe a.x
  pub fe_y : IsFe a.y

infinity-IsCanonical : IsCanonical infinity
infinity-IsCanonical = record {
  fe_x = (omega arith, omega arith);
  fe_y = (omega arith, omega arith);
}

fe_sub-IsFe : (a b : List ℕ) → IsFe a → IsFe b → IsFe (fe_sub a b)
fe_sub-IsFe a b ha hb = (fe_sub-value a b ha hb).0

fe_mul-IsFe : (a b : List ℕ) → IsFe a → IsFe b → IsFe (fe_mul a b)
fe_mul-IsFe a b ha hb = (fe_mul-value a b ha.0 hb.0).0

fe_sqr-IsFe : (a : List ℕ) → IsFe a → IsFe (fe_sqr a)
unfolding fe_sqr
fe_sqr-IsFe a ha = fe_mul-IsFe a a ha ha

fe_add-IsFe : (a b : List ℕ) → IsFe a → IsFe b → IsFe (fe_add a b)
fe_add-IsFe a b ha hb = (fe_add-value a b ha hb).0

fe_inv-IsFe : (a : List ℕ) → IsFe a → IsFe (fe_inv a)
fe_inv-IsFe a ha = (fe_inv-value a ha.0).0

three-IsFe : IsFe (3 ∷ 0 ∷ 0 ∷ 0 ∷ [])
three-IsFe = (omega arith, omega arith)

if-IsCanonical :
    (b : Bool) (x y : Pt) → IsCanonical x → IsCanonical y → IsCanonical (if b then x else y)
if-IsCanonical true x y hx hy = hx
if-IsCanonical false x y hx hy = hy

third_y-IsFe :
    (l : List ℕ) (a : Pt) (nx : List ℕ) → IsFe l → IsCanonical a → IsFe nx → IsFe (third_y l a nx)
third_y-IsFe l a nx hl h hx =
    fe_sub-IsFe _ _ (fe_mul-IsFe _ _ hl (fe_sub-IsFe _ _ h.fe_x hx)) h.fe_y

double_slope-IsFe : (a : Pt) → IsCanonical a → IsFe (double_slope a)
double_slope-IsFe a h =
    fe_mul-IsFe _ _ (fe_mul-IsFe _ _ three-IsFe (fe_sqr-IsFe _ h.fe_x))
      (fe_inv-IsFe _ (fe_add-IsFe _ _ h.fe_y h.fe_y))

double_x-IsFe : (a : Pt) → IsCanonical a → IsFe (double_x a)
double_x-IsFe a h =
    fe_sub-IsFe _ _ (fe_sqr-IsFe _ (double_slope-IsFe a h)) (fe_add-IsFe _ _ h.fe_x h.fe_x)

point_double-IsCanonical : (a : Pt) → IsCanonical a → IsCanonical (point_double a)
unfolding point_double
point_double-IsCanonical a h = if-IsCanonical a.inf infinity _ infinity-IsCanonical (
    if-IsCanonical (is_zero (fe_add a.y a.y)) infinity _ infinity-IsCanonical (record {
      fe_x = double_x-IsFe a h;
      fe_y =
          third_y-IsFe (double_slope a) a (double_x a) (double_slope-IsFe a h) h
            (double_x-IsFe a h);
    }))

add_slope-IsFe : (a b : Pt) → IsCanonical a → IsCanonical b → IsFe (add_slope a b)
add_slope-IsFe a b ha hb =
    fe_mul-IsFe _ _ (fe_sub-IsFe _ _ hb.fe_y ha.fe_y)
      (fe_inv-IsFe _ (fe_sub-IsFe _ _ hb.fe_x ha.fe_x))

third_x-IsFe : (l ax bx : List ℕ) → IsFe l → IsFe ax → IsFe bx → IsFe (third_x l ax bx)
third_x-IsFe l ax bx hl ha hb = fe_sub-IsFe _ _ (fe_sub-IsFe _ _ (fe_sqr-IsFe _ hl) ha) hb

point_add-IsCanonical : (a b : Pt) → IsCanonical a → IsCanonical b → IsCanonical (point_add a b)
unfolding point_add
point_add-IsCanonical a b ha hb =
    let slope = add_slope-IsFe a b ha hb in
    let fe_nx = third_x-IsFe (add_slope a b) a.x b.x slope ha.fe_x hb.fe_x in
    if-IsCanonical a.inf b _ hb (
      if-IsCanonical b.inf a _ ha (
        if-IsCanonical (a.x == b.x) _ _
          (if-IsCanonical (a.y == b.y) (point_double a) infinity (point_double-IsCanonical a ha)
            infinity-IsCanonical)
          (record {
            fe_x = fe_nx;
            fe_y = third_y-IsFe (add_slope a b) a (third_x (add_slope a b) a.x b.x) slope ha fe_nx;
          })))

mul_bits-IsCanonical :
    (n bits : ℕ) (r b : Pt)
    → IsCanonical r
    → IsCanonical b
    → IsCanonical (mul_bits n bits (r, b)).0 × IsCanonical (mul_bits n bits (r, b)).1
unfolding mul_bits
mul_bits-IsCanonical zero bits r b hr hb = (hr, hb)
mul_bits-IsCanonical (suc n) bits r b hr hb =
    mul_bits-IsCanonical n (bits / 2) (if bits % 2 == 0 then r else point_add r b) (point_double b)
      (if-IsCanonical (bits % 2 == 0) r (point_add r b) hr (point_add-IsCanonical r b hr hb))
      (point_double-IsCanonical b hb)

mul_words-IsCanonical :
    (k : List ℕ) (r b : Pt) → IsCanonical r → IsCanonical b → IsCanonical (mul_words k (r, b)).0
unfolding mul_words
mul_words-IsCanonical [] r b hr hb = hr
mul_words-IsCanonical (w ∷ ws) r b hr hb =
    let (sum, base) = mul_bits-IsCanonical 64 w r b hr hb in
    mul_words-IsCanonical ws (mul_bits 64 w (r, b)).0 (mul_bits 64 w (r, b)).1 sum base

-- A multiple of a point with canonical coordinates has canonical coordinates, for every scalar.
pub scalar_mul-IsCanonical : (k : List ℕ) (a : Pt) → IsCanonical a → IsCanonical (scalar_mul k a)
unfolding scalar_mul
scalar_mul-IsCanonical k a h = mul_words-IsCanonical k infinity a infinity-IsCanonical h
