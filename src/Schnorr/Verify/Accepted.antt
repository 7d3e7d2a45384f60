-- ===== src/Schnorr/Verify/Accepted.antt =====
-- schnorr.rs, `schnorr_verify_impl`: what an accepted signature satisfies.
use mathlib.Core.List.{reverse, reverse_aux}
use near_mock.Base.{
  ℕ, zero, suc, ◌+◌, ◌*◌, ◌%◌, ◌^◌, ◌≤◌, ◌<◌, ◌≡◌, ◌⊎◌, inl, inr, refl, sym, ap, subst, ◌∙◌, Bool,
  true, false, ◌||◌, List, [], ◌∷◌, Option, none, some, Bytes, arith, length, take, drop, ltb, ◌==◌,
  if◌then◌else◌, Bool-cases,
}
use near_mock.Base.{ℕ_eq, bytes_Key, bytes_eq_iff}
use native.Mathlib.Nat.{pow-suc}
use near_mock.Base.Modular.{mod-mul}
use near_mock.Schnorr.Limbs.{value, IsLimbs}
use near_mock.Schnorr.Field.{n_limbs, p, p_limbs, fe_mod_n, fe_sub}
use near_mock.Schnorr.Field.Laws.{IsFe, fe_add-value, fe_mod_n-value}
use near_mock.Schnorr.Product.{fe_mul, fe_sqr}
use near_mock.Schnorr.Product.Laws.{fe_mul-value}
use near_mock.Schnorr.Power.{fe_sqrt}
use near_mock.Schnorr.Power.Laws.{fe_sqrt-value}
use near_mock.Schnorr.Octets.{be_bytes_to_fe, limbs_of_le, from_le_bytes}
use near_mock.Schnorr.Curve.{Pt, is_zero}
use near_mock.Schnorr.Verify.{
  curve_rhs, lift_x, challenge, r_point, accepts, schnorr_verify_impl, seven, is_odd,
}
use near_mock.Schnorr.Verify.Even.{is_odd-value, fe_sub-negated, square-negated}

abbrev pub AllBytes : Bytes → Type 0
AllBytes [] = Unit
AllBytes (b ∷ r) = (b < 256) × AllBytes r

from_le_bytes-lt : (n : ℕ) (bs : Bytes) → AllBytes bs → from_le_bytes (take n bs) < 256 ^ n
unfolding from_le_bytes
from_le_bytes-lt zero bs h = omega arith
from_le_bytes-lt (suc n) [] h = omega (arith, from_le_bytes-lt n [] tt, pow-suc 256 n)
from_le_bytes-lt (suc n) (b ∷ r) h = omega (arith, from_le_bytes-lt n r h.1, h.0, pow-suc 256 n)

drop-AllBytes : (n : ℕ) (bs : Bytes) → AllBytes bs → AllBytes (drop n bs)
drop-AllBytes zero bs h = h
drop-AllBytes (suc n) [] h = h
drop-AllBytes (suc n) (b ∷ r) h = drop-AllBytes n r h.1

take-AllBytes : (n : ℕ) (bs : Bytes) → AllBytes bs → AllBytes (take n bs)
take-AllBytes zero bs h = tt
take-AllBytes (suc n) [] h = h
take-AllBytes (suc n) (b ∷ r) h = (h.0, take-AllBytes n r h.1)

limbs_of_le-IsLimbs : (n : ℕ) (bs : Bytes) → AllBytes bs → IsLimbs n (limbs_of_le n bs)
unfolding limbs_of_le
limbs_of_le-IsLimbs zero bs h = tt
limbs_of_le-IsLimbs (suc n) bs h = (
  omega (arith, from_le_bytes-lt 8 bs h),
  limbs_of_le-IsLimbs n (drop 8 bs) (drop-AllBytes 8 bs h),
)

reverse_aux-AllBytes : (bs acc : Bytes) → AllBytes bs → AllBytes acc → AllBytes (reverse_aux bs acc)
reverse_aux-AllBytes [] acc h k = k
reverse_aux-AllBytes (b ∷ r) acc h k = reverse_aux-AllBytes r (b ∷ acc) h.1 (h.0, k)

be_bytes_to_fe-IsLimbs : (bs : Bytes) → AllBytes bs → IsLimbs 4 (be_bytes_to_fe bs)
unfolding be_bytes_to_fe
be_bytes_to_fe-IsLimbs bs h = limbs_of_le-IsLimbs 4 (reverse bs) (reverse_aux-AllBytes bs [] h tt)

is_zero-false : (n : ℕ) (a : List ℕ) → IsLimbs n a → is_zero a ≡ false → 0 < value a
unfolding is_zero
is_zero-false zero [] h e = cc
is_zero-false zero (x ∷ r) h e = elim h [ ]
is_zero-false (suc n) [] h e = elim h [ ]
is_zero-false (suc n) (x ∷ r) h e = ground (arith, is_zero-false n r h.1, e)

-- The point that BIP-340 gives a public key: its abscissa is the key's number, and its ordinate the
-- even canonical root of x^3 + 7 modulo p.
abbrev pub IsKey : List ℕ → Pt → Type 0
IsKey x point =
    (point.x ≡ x)
    × (point.inf ≡ false)
    × IsFe point.y
    × (value point.y * value point.y % p ≡ (value x * value x * value x + 7) % p)
    × (value point.y % 2 ≡ 0)

curve_rhs-value :
    (x : List ℕ)
    → IsLimbs 4 x
    → IsFe (curve_rhs x) × (value (curve_rhs x) ≡ (value x * value x * value x + 7) % p)
unfolding curve_rhs
curve_rhs-value x h =
    let (fe2, square) = fe_mul-value x x h h in
    let (fe3, cube) = fe_mul-value (fe_mul x x) x fe2.0 h in
    let (fe, total) = fe_add-value (fe_mul (fe_mul x x) x) seven fe3 (omega arith, omega arith) in
    (
      fe,
      total
          ∙ sum _ _
              (cube ∙ ap (λ s. s * value x % p) square ∙ mod-mul (value x * value x) (value x) p),
    )
  where
    sum : (t u : ℕ) → t ≡ u % p → (t + value seven) % p ≡ (u + 7) % p
    sum t u e = omega (arith, e)

fe_sqr-value : (y : List ℕ) → IsFe y → value (fe_sqr y) ≡ value y * value y % p
unfolding fe_sqr
fe_sqr-value y h = (fe_mul-value y y h.0 h.0).1

not_none : (pt : Pt) → ¬ (some pt ≡ none)
not_none pt e = cc

some-eq : (a b : Pt) → some a ≡ some b → a ≡ b
some-eq a b e = cc

-- The even one of a root and its negative.
even : List ℕ → List ℕ
even y = if is_odd y then fe_sub p_limbs y else y

even-value :
    (y : List ℕ)
    → IsFe y
    → IsFe (even y)
      × (value (even y) * value (even y) % p ≡ value y * value y % p)
      × (value (even y) % 2 ≡ 0)
unfolding even
even-value y h = elim (Bool-cases (is_odd y)) [
  | inl odd ↦
      let one : value y % 2 ≡ 1 = ground (arith, sym (is_odd-value y h.0) ∙ odd) in
      let (fe, total) = fe_sub-negated y h (omega (arith, one)) in
      rw (odd, even)
        (fe, square-negated (value y) (value (fe_sub p_limbs y)) total, omega (arith, one, total))
  | inr other ↦ rw (other, even) (h, refl, ground (arith, sym (is_odd-value y h.0) ∙ other))
]

lift_x-IsKey : (x : List ℕ) (point : Pt) → IsLimbs 4 x → lift_x x ≡ some point → IsKey x point
unfolding lift_x even
lift_x-IsKey x point h e = elim (Bool-cases (fe_sqr (fe_sqrt (curve_rhs x)) == curve_rhs x)) [
  | inr missing ↦ absurd (not_none point (sym e ∙ rw (missing, lift_x) refl))
  | inl found ↦
      let (fe, rhs) = curve_rhs-value x h in
      let y = fe_sqrt (curve_rhs x) in
      let y_fe = (fe_sqrt-value (curve_rhs x) fe.0).0 in
      let (even_fe, same, parity) = even-value y y_fe in
      let root =
        sym (fe_sqr-value y y_fe)
        ∙ ap value ((bytes_eq_iff (fe_sqr y) (curve_rhs x)).0 found)
        ∙ rhs in
      let lifted : lift_x x ≡ some (record { x = x; y = even y; inf = false }) =
        rw (found, lift_x) refl in
      subst (IsKey x) (some-eq _ _ (sym lifted ∙ e)) (refl, refl, even_fe, same ∙ root, parity)
]

-- What an accepted signature satisfies: neither scalar is 0 modulo the order, the message has at most
-- 192 bytes, the public key is the abscissa of a point of the curve, and the point recomputed from the
-- one with an even ordinate passes the final test.
abbrev pub IsAccepted : Bytes → Bytes → Bytes → Type 0
IsAccepted pk sig msg =
    (0 < value (be_bytes_to_fe (take 32 sig)) % value n_limbs)
    × (0 < value (be_bytes_to_fe (drop 32 sig)) % value n_limbs)
    × (length msg ≤ 192)
    × ((point : Pt) × IsKey (be_bytes_to_fe pk) point
        × (accepts (be_bytes_to_fe (take 32 sig))
              (r_point (be_bytes_to_fe (drop 32 sig)) (challenge pk sig msg) point)
            ≡ true))

mod_n-positive :
    (a : List ℕ) → IsLimbs 4 a → is_zero (fe_mod_n a) ≡ false → 0 < value a % value n_limbs
mod_n-positive a h e =
    let (limbs, same) = fe_mod_n-value a h in
    subst (λ n. 0 < n) same (is_zero-false 4 (fe_mod_n a) limbs e)

-- A signature over bytes is either refused, or it satisfies `IsAccepted`.
pub schnorr_verify_impl-IsAccepted :
    (pk sig msg : Bytes)
    → AllBytes pk
    → AllBytes sig
    → (schnorr_verify_impl pk sig msg ≡ false) ⊎ IsAccepted pk sig msg
unfolding schnorr_verify_impl
schnorr_verify_impl-IsAccepted pk sig msg hp hs =
    go (is_zero (fe_mod_n r)) refl (is_zero (fe_mod_n s)) refl (lift_x (be_bytes_to_fe pk)) refl
  where
    r : List ℕ
    r = be_bytes_to_fe (take 32 sig)

    s : List ℕ
    s = be_bytes_to_fe (drop 32 sig)

    fe_r : IsLimbs 4 r
    fe_r = be_bytes_to_fe-IsLimbs (take 32 sig) (take-AllBytes 32 sig hs)

    fe_s : IsLimbs 4 s
    fe_s = be_bytes_to_fe-IsLimbs (drop 32 sig) (drop-AllBytes 32 sig hs)

    check : Bool → Bool → Option Pt → Bool
    check zr zs o = if zr || zs then false else elim o [
      | none ↦ false
      | some pt ↦
          if ltb 256 (64 + length msg)
          then false
          else accepts r (r_point s (challenge pk sig msg) pt)
    ]

    last :
        (pt : Pt) (long ok : Bool)
        → ltb 256 (64 + length msg) ≡ long
        → accepts r (r_point s (challenge pk sig msg) pt) ≡ ok
        → 0 < value r % value n_limbs
        → 0 < value s % value n_limbs
        → IsKey (be_bytes_to_fe pk) pt
        → ((if long then false else ok) ≡ false) ⊎ IsAccepted pk sig msg
    last pt true ok el eo zr zs c = inl refl
    last pt false false el eo zr zs c = inl refl
    last pt false true el eo zr zs c = inr (zr, zs, ground (arith, el), (pt, c, eo))

    go :
        (zr : Bool)
        → is_zero (fe_mod_n r) ≡ zr
        → (zs : Bool) → is_zero (fe_mod_n s) ≡ zs
        → (o : Option Pt) → lift_x (be_bytes_to_fe pk) ≡ o
        → (check zr zs o ≡ false) ⊎ IsAccepted pk sig msg
    go true er zs es o eo = inl refl
    go false er true es o eo = inl refl
    go false er false es none eo = inl refl
    go false er false es (some pt) eo =
        last pt (ltb 256 (64 + length msg)) (accepts r (r_point s (challenge pk sig msg) pt)) refl
          refl (mod_n-positive r fe_r er) (mod_n-positive s fe_s es)
          (lift_x-IsKey (be_bytes_to_fe pk) pt (be_bytes_to_fe-IsLimbs pk hp) eo)
