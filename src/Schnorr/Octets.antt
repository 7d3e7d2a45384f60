-- ===== src/Schnorr/Octets.antt =====
-- schnorr.rs, `be_bytes_to_fe` and `fe_to_be_bytes`: 32 big-endian bytes and four limbs.
use mathlib.Core.List.{reverse, reverse-reverse}
use near_mock.Base.{
  ℕ, zero, suc, ◌+◌, ◌*◌, ◌/◌, ◌%◌, ◌^◌, ◌<◌, ◌≡◌, refl, ◌∙◌, ap, ap₂, List, [], ◌∷◌, ◌++◌, Bytes,
  arith, length, take, drop,
}
use native.Mathlib.Nat.{pow-suc}
use near_mock.Schnorr.Limbs.{IsLimbs}

-- `u64::from_le_bytes`, for any number of bytes.
unfoldable pub from_le_bytes : Bytes → ℕ
from_le_bytes [] = 0
from_le_bytes (b ∷ r) = b + 256 * from_le_bytes r

unfoldable pub to_le_bytes : ℕ → ℕ → Bytes
to_le_bytes zero x = []
to_le_bytes (suc n) x = x % 256 ∷ to_le_bytes n (x / 256)

-- `n` limbs from as many groups of eight bytes, the lowest first.
unfoldable pub limbs_of_le : ℕ → Bytes → List ℕ
unfolding from_le_bytes
limbs_of_le zero bs = []
limbs_of_le (suc n) bs = from_le_bytes (take 8 bs) ∷ limbs_of_le n (drop 8 bs)

unfoldable pub le_of_limbs : List ℕ → Bytes
unfolding to_le_bytes
le_of_limbs [] = []
le_of_limbs (x ∷ r) = to_le_bytes 8 x ++ le_of_limbs r

unfoldable pub be_bytes_to_fe : Bytes → List ℕ
unfolding limbs_of_le
be_bytes_to_fe b = limbs_of_le 4 (reverse b)

unfoldable pub fe_to_be_bytes : List ℕ → Bytes
unfolding le_of_limbs
fe_to_be_bytes a = reverse (le_of_limbs a)

from_le_bytes-to_le_bytes : (n x : ℕ) → x < 256 ^ n → from_le_bytes (to_le_bytes n x) ≡ x
unfolding from_le_bytes to_le_bytes
from_le_bytes-to_le_bytes zero x h = omega arith
from_le_bytes-to_le_bytes (suc n) x h =
    omega (arith, from_le_bytes-to_le_bytes n (x / 256) (omega (arith, pow-suc 256 n)))

length-to_le_bytes : (n x : ℕ) → length (to_le_bytes n x) ≡ n
unfolding to_le_bytes
length-to_le_bytes zero x = refl
length-to_le_bytes (suc n) x = ap suc (length-to_le_bytes n (x / 256))

take-append_exact : (n : ℕ) (xs ys : Bytes) → length xs ≡ n → take n (xs ++ ys) ≡ xs
take-append_exact zero [] ys e = refl
take-append_exact zero (x ∷ xs) ys e = absurd (omega arith)
take-append_exact (suc n) [] ys e = absurd (omega arith)
take-append_exact (suc n) (x ∷ xs) ys e = ap (λ r. x ∷ r) (take-append_exact n xs ys (omega arith))

drop-append_exact : (n : ℕ) (xs ys : Bytes) → length xs ≡ n → drop n (xs ++ ys) ≡ ys
drop-append_exact zero [] ys e = refl
drop-append_exact zero (x ∷ xs) ys e = absurd (omega arith)
drop-append_exact (suc n) [] ys e = absurd (omega arith)
drop-append_exact (suc n) (x ∷ xs) ys e = drop-append_exact n xs ys (omega arith)

limbs_of_le-le_of_limbs : (n : ℕ) (a : List ℕ) → IsLimbs n a → limbs_of_le n (le_of_limbs a) ≡ a
unfolding limbs_of_le le_of_limbs
limbs_of_le-le_of_limbs zero [] h = refl
limbs_of_le-le_of_limbs zero (x ∷ r) h = elim h [ ]
limbs_of_le-le_of_limbs (suc n) [] h = elim h [ ]
limbs_of_le-le_of_limbs (suc n) (x ∷ r) h =
    ap₂ ◌∷◌
      (ap from_le_bytes
          (take-append_exact 8 (to_le_bytes 8 x) (le_of_limbs r) (length-to_le_bytes 8 x))
        ∙ from_le_bytes-to_le_bytes 8 x (omega arith))
      (ap (limbs_of_le n)
          (drop-append_exact 8 (to_le_bytes 8 x) (le_of_limbs r) (length-to_le_bytes 8 x))
        ∙ limbs_of_le-le_of_limbs n r h.1)

-- A field element written as bytes reads back as itself.
pub be_bytes_to_fe-fe_to_be_bytes :
    (a : List ℕ) → IsLimbs 4 a → be_bytes_to_fe (fe_to_be_bytes a) ≡ a
unfolding be_bytes_to_fe fe_to_be_bytes
be_bytes_to_fe-fe_to_be_bytes a h =
    ap (limbs_of_le 4) (reverse-reverse (le_of_limbs a)) ∙ limbs_of_le-le_of_limbs 4 a h

-- The number that big-endian bytes stand for.
abbrev pub be_number : ℕ → Bytes → ℕ
be_number acc [] = acc
be_number acc (b ∷ r) = be_number (acc * 256 + b) r
