-- ===== src/Schnorr/Verify.antt =====
-- schnorr.rs, `schnorr_verify_impl`.
pub mod Accepted
pub mod Even
use near_mock.Base.{
  ℕ, ◌+◌, ◌%◌, ◌≤◌, ◌≡◌, Bool, true, false, not, ◌&&◌, ◌||◌, List, [], ◌∷◌, ◌++◌, Option, none,
  some, Bytes, length, take, drop, ltb, ◌==◌, if◌then◌else◌,
}
use near_mock.Base.{ℕ_eq, bytes_Key}
use near_mock.Schnorr.Field.{p_limbs, fe_add, fe_sub, fe_mod_n}
use near_mock.Schnorr.Product.{fe_mul, fe_sqr}
use near_mock.Schnorr.Power.{fe_sqrt}
use near_mock.Schnorr.Octets.{be_bytes_to_fe, fe_to_be_bytes}
use near_mock.Schnorr.Curve.{Pt, is_zero, point_add, scalar_mul}
use near_mock.Schnorr.Sha256.{tagged_hash_impl}

abbrev pub g_x : List ℕ
g_x = 0x59F2815B16F81798 ∷ 0x029BFCDB2DCE28D9 ∷ 0x55A06295CE870B07 ∷ 0x79BE667EF9DCBBAC ∷ []

abbrev pub g_y : List ℕ
g_y = 0x9C47D08FFB10D4B8 ∷ 0xFD17B448A6855419 ∷ 0x5DA4FBFC0E1108A8 ∷ 0x483ADA7726A3C465 ∷ []

abbrev pub g : Pt
g = record { x = g_x; y = g_y; inf = false }

abbrev seven : List ℕ
seven = 7 ∷ 0 ∷ 0 ∷ 0 ∷ []

abbrev pub last_odd : Bool → Bytes → Bool
last_odd odd [] = odd
last_odd odd (b ∷ r) = last_odd (b % 2 == 1) r

-- `fe_to_be_bytes(..)[31] & 1`
unfoldable pub is_odd : List ℕ → Bool
is_odd a = last_odd false (fe_to_be_bytes a)

unfoldable pub curve_rhs : List ℕ → List ℕ
curve_rhs x = fe_add (fe_mul (fe_mul x x) x) seven

-- The point with the given abscissa and an even ordinate.
unfoldable pub lift_x : List ℕ → Option Pt
unfolding curve_rhs is_odd
lift_x x =
    let y = fe_sqrt (curve_rhs x) in
    if fe_sqr y == curve_rhs x
    then some (record { x = x; y = if is_odd y then fe_sub p_limbs y else y; inf = false })
    else none

-- "BIP0340/challenge"
abbrev pub challenge_tag : Bytes
challenge_tag =
    66 ∷ 73 ∷ 80 ∷ 48 ∷ 51 ∷ 52 ∷ 48 ∷ 47 ∷ 99 ∷ 104 ∷ 97 ∷ 108 ∷ 108 ∷ 101 ∷ 110 ∷ 103 ∷ 101 ∷ []

unfoldable pub challenge : Bytes → Bytes → Bytes → List ℕ
challenge pk sig msg =
    fe_mod_n (be_bytes_to_fe (tagged_hash_impl challenge_tag (take 32 sig ++ pk ++ msg)))

-- `r_pt`: s G - e P, where the second summand is never marked infinite.
unfoldable pub r_point : List ℕ → List ℕ → Pt → Pt
r_point s e p_pt =
    let ep = scalar_mul e p_pt in
    point_add (scalar_mul s g) (record { x = ep.x; y = fe_sub p_limbs ep.y; inf = false })

unfoldable pub accepts : List ℕ → Pt → Bool
unfolding is_odd
accepts r r_pt = not r_pt.inf && (fe_mod_n r_pt.x == fe_mod_n r) && not (is_odd r_pt.y)

unfoldable pub schnorr_verify_impl : Bytes → Bytes → Bytes → Bool
unfolding is_zero lift_x challenge r_point accepts
schnorr_verify_impl pk sig msg =
    let r = be_bytes_to_fe (take 32 sig) in
    let s = be_bytes_to_fe (drop 32 sig) in
    if is_zero (fe_mod_n r) || is_zero (fe_mod_n s)
    then false
    else elim (lift_x (be_bytes_to_fe pk)) [
      | none ↦ false
      | some p_pt ↦
          if ltb 256 (64 + length msg)
          then false
          else accepts r (r_point s (challenge pk sig msg) p_pt)
    ]
