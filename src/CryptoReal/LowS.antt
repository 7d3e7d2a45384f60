-- ===== src/CryptoReal/LowS.antt =====
-- crypto_real.rs, `ecrecover` and `check_signature_values`: the comparison of bytes is that of numbers, and
-- its bound is half of the order that schnorr.rs has.
use near_mock.Base.{
  ℕ, suc, ◌+◌, ◌*◌, ◌/◌, ◌^◌, ◌<◌, ◌≤◌, ◌≡◌, refl, sym, subst, Option, none, some, drop, Bool-cases,
  Option-cases, inl, inr, if◌then◌else◌, ◌∙◌, zero, true, false, not, ◌&&◌, ◌||◌, [], ◌∷◌, Bytes,
  arith, length, ltb, leb, ◌==◌,
}
use near_mock.Base.{ℕ_eq}
use native.Mathlib.Nat.{mul-le-mul, pow-suc}
use near_mock.Schnorr.Limbs.{value}
use near_mock.Schnorr.Field.{n_limbs}
use near_mock.CryptoReal.{array_geq, check_signature_values, n_half_one, K256, ok, ecrecover}

-- The big-endian value.
abbrev pub be_value : Bytes → ℕ
be_value [] = 0
be_value (b ∷ bs) = b * 256 ^ length bs + be_value bs

abbrev pub IsBytes : Bytes → Type 0
IsBytes [] = Unit
IsBytes (b ∷ bs) = (b < 256) × IsBytes bs

row_le : (c b k : ℕ) → c < b → c * k + k ≤ b * k
row_le c b k h = let p : suc c * k ≤ b * k = mul-le-mul h (omega arith) in omega (arith, p)

-- Two numbers whose last digits are less than the base compare as their digits do.
digits_leb :
    (b c k u v : ℕ) → u < k → v < k → leb (c * k + v) (b * k + u) ≡ (ltb c b || (b == c && leb v u))
digits_leb b c k u v hu hv = ground (arith, row_le c b k, row_le b c k, hu, hv)

be_value-lt : (bs : Bytes) → IsBytes bs → be_value bs < 256 ^ length bs
be_value-lt [] h = omega arith
be_value-lt (b ∷ bs) (hb, h) =
    omega (arith, be_value-lt bs h, row_le b 256 (256 ^ length bs) hb, pow-suc 256 (length bs))

array_geq-leb :
    (xs ys : Bytes)
    → length xs ≡ length ys
    → IsBytes xs
    → IsBytes ys
    → array_geq xs ys ≡ leb (be_value ys) (be_value xs)
unfolding array_geq
array_geq-leb [] [] e hx hy = refl
array_geq-leb [] (c ∷ cs) e hx hy = absurd (omega (arith, e))
array_geq-leb (b ∷ bs) [] e hx hy = absurd (omega (arith, e))
array_geq-leb (b ∷ bs) (c ∷ cs) e (hb, hx) (hc, hy) =
    let same : length bs ≡ length cs = omega (arith, e) in
    rw (array_geq-leb bs cs same hx hy, same)
      (sym (
        digits_leb b c (256 ^ length cs) (be_value bs) (be_value cs)
          (subst (λ n. be_value bs < 256 ^ n) same (be_value-lt bs hx)) (be_value-lt cs hy)))

half : (n : ℕ) → not (true && leb (be_value n_half_one) n) ≡ leb n (value n_limbs / 2)
half n = ground arith

check_signature_values-low :
    (recid : ℕ) (s : Bytes)
    → length s ≡ 32
    → IsBytes s
    → (check_signature_values recid s true ≡ leb (be_value s) (value n_limbs / 2))
      × (check_signature_values recid s false ≡ true)
unfolding check_signature_values
check_signature_values-low recid s e h =
    (rw (array_geq-leb s n_half_one e h (omega arith)) (half (be_value s)), refl)

drop-IsBytes : (n : ℕ) (bs : Bytes) → IsBytes bs → IsBytes (drop n bs)
drop-IsBytes zero bs h = h
drop-IsBytes (suc n) [] h = h
drop-IsBytes (suc n) (b ∷ bs) h = drop-IsBytes n bs h.1

length-drop : (n m : ℕ) (bs : Bytes) → length bs ≡ n + m → length (drop n bs) ≡ m
length-drop zero m bs e = e ∙ omega arith
length-drop (suc n) m [] e = absurd (omega (arith, e))
length-drop (suc n) m (b ∷ bs) e = length-drop n m bs (omega (arith, e))

-- What the crate recovers from a signature, where it takes it for one.
abbrev pub recovered : K256 → Bytes → Bytes → ℕ → Option Bytes
recovered k256 hash sig v = elim (k256.from_slice sig) [
  | none ↦ none
  | some s ↦ k256.recover_from_prehash hash s v
]

-- On a hash of 32 bytes and a signature of 64, with any of the four recovery bytes, the flag has one effect:
-- a signature whose second number is more than half of the order of the group gives no key. All else, the
-- recovery byte 1 to 3 with the flag included, gives what the crate recovers.
pub ecrecover-low :
    (k256 : K256) (hash sig : Bytes) (v : ℕ)
    → length hash ≡ 32
    → length sig ≡ 64
    → IsBytes sig
    → v < 4
    → (ecrecover k256 hash sig v 0 ≡ ok (recovered k256 hash sig v))
      × (ecrecover k256 hash sig v 1 ≡ (
          if leb (be_value (drop 32 sig)) (value n_limbs / 2)
          then ok (recovered k256 hash sig v)
          else ok none))
unfolding ecrecover
ecrecover-low k256 hash sig v hh hs bytes small =
    let (with_flag, without) =
      check_signature_values-low v (drop 32 sig) (length-drop 32 32 sig hs)
        (drop-IsBytes 32 sig bytes) in
    let fits : leb 4 v ≡ false = ground arith in
    elim (Option-cases (k256.from_slice sig)) [
      | inl n ↦ (
        rw (hs, fits, hh, n, ecrecover, recovered) refl,
        elim (Bool-cases (leb (be_value (drop 32 sig)) (value n_limbs / 2))) [
          | inl low ↦
              let pass = with_flag ∙ low in
              rw (hs, fits, hh, pass, n, low, ecrecover, recovered) refl
          | inr high ↦ let stop = with_flag ∙ high in rw (hs, fits, hh, stop, high, ecrecover) refl
        ],
      )
      | inr (s, e) ↦ (
        rw (hs, fits, hh, e, ecrecover, recovered) refl,
        elim (Bool-cases (leb (be_value (drop 32 sig)) (value n_limbs / 2))) [
          | inl low ↦
              let pass = with_flag ∙ low in
              rw (hs, fits, hh, pass, e, low, ecrecover, recovered) refl
          | inr high ↦ let stop = with_flag ∙ high in rw (hs, fits, hh, stop, high, ecrecover) refl
        ],
      )
    ]
