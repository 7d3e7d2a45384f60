-- ===== src/Bn254.antt =====
-- bn254.rs: the alt_bn128 functions. What the crate bn computes is a parameter.
pub mod Octets
pub mod Tests
use near_mock.Base.{
  ℕ, zero, suc, ◌+◌, ◌*◌, ◌/◌, ◌%◌, Bool, true, false, ◌&&◌, List, [], ◌∷◌, ◌++◌, Option, none,
  some, Bytes, length, take, drop, ◌==◌, if◌then◌else◌,
}
use near_mock.Base.{ℕ_eq}
use near_mock.Base.Utf8.{from_le_bytes, to_le_bytes}
use near_mock.Bls.{chunks_exact}

abbrev pub bool_size : ℕ
bool_size = 1

abbrev pub scalar_size : ℕ
scalar_size = 32

abbrev pub point_size : ℕ
point_size = 64

abbrev pub g1_multiexp_element_size : ℕ
g1_multiexp_element_size = point_size + scalar_size

abbrev pub g1_sum_element_size : ℕ
g1_sum_element_size = bool_size + point_size

abbrev pub pairing_check_element_size : ℕ
pairing_check_element_size = point_size + point_size * 2

-- `InvalidInput`, of which the text names the part and its bytes.
pub data InvalidInput : Type 0 where
  invalid_length : (input_len element_size : ℕ) → InvalidInput
  invalid_g1 invalid_fq invalid_g2 invalid_fr invalid_bool : (bad_value : Bytes) → InvalidInput

pub data Decoded {ℓ} (A : Type ℓ) : Type ℓ where
  err : InvalidInput → Decoded A
  ok : A → Decoded A

abbrev pub and_then {ℓ κ} : {A : Type ℓ} {B : Type κ} → Decoded A → (A → Decoded B) → Decoded B
and_then (err e) f = err e
and_then (ok a) f = f a

abbrev pub ok_or {ℓ} : {A : Type ℓ} → InvalidInput → Option A → Decoded A
ok_or e none = err e
ok_or e (some a) = ok a

-- `U256([lo, hi])`
abbrev pub U256 : Type 0
U256 = ℕ × ℕ

-- The types and functions of bn. `affine_g1` is `AffineG1::new` and the conversion to a point.
pub record Bn : Type 1 where
  pub Fq : Type 0
  pub Fq2 : Type 0
  pub Fr : Type 0
  pub G1 : Type 0
  pub G2 : Type 0
  pub from_u256 : U256 → Option Fq
  pub into_u256 : Fq → U256
  pub fq_zero : Fq
  pub fq_is_zero : Fq → Bool
  pub fq2_new : Fq → Fq → Fq2
  pub fq2_is_zero : Fq2 → Bool
  pub fr_new : U256 → Option Fr
  pub g1_zero : G1
  pub affine_g1 : Fq → Fq → Option G1
  pub from_jacobian : G1 → Option (Fq × Fq)
  pub add : G1 → G1 → G1
  pub sub : G1 → G1 → G1
  pub multiexp : List (G1 × Fr) → G1
  pub g2_zero : G2
  pub affine_g2 : Fq2 → Fq2 → Option G2
  pub pairing_is_one : List (G1 × G2) → Bool

-- The elements, or the error of a ragged tail.
unfoldable pub split_elements : ℕ → Bytes → Decoded (List Bytes)
unfolding chunks_exact
split_elements element_size data_bytes = elim (length data_bytes % element_size == 0) [
  | false ↦ err (invalid_length (length data_bytes) element_size)
  | true ↦ ok (chunks_exact (length data_bytes / element_size) element_size data_bytes)
]

unfoldable pub decode_u256 : Bytes → U256
decode_u256 raw = (from_le_bytes (take 16 raw), from_le_bytes (drop 16 raw))

unfoldable pub encode_u256 : U256 → Bytes
encode_u256 (lo, hi) = to_le_bytes 16 lo ++ to_le_bytes 16 hi

unfoldable pub decode_bool : Bytes → Decoded Bool
decode_bool [] = err (invalid_bool [])
decode_bool (b ∷ c ∷ bs) = err (invalid_bool (b ∷ c ∷ bs))
decode_bool (b ∷ []) =
    if b == 0 then ok false else if b == 1 then ok true else err (invalid_bool (b ∷ []))

-- `iter().map(..).collect::<Result<Vec<_>, _>>()`: the first error, or all.
unfoldable pub decode_all {ℓ} : {A : Type ℓ} → (Bytes → Decoded A) → List Bytes → Decoded (List A)
decode_all item [] = ok []
decode_all item (x ∷ xs) =
    let rest = decode_all item xs in and_then (item x) (λ a. and_then rest (λ r. ok (a ∷ r)))

module _ (bn : Bn) where
  unfoldable pub decode_fq : Bytes → Decoded bn.Fq
  unfolding decode_u256
  decode_fq raw = ok_or (invalid_fq raw) (bn.from_u256 (decode_u256 raw))

  unfoldable pub decode_fr : Bytes → Decoded bn.Fr
  unfolding decode_u256
  decode_fr raw = ok_or (invalid_fr raw) (bn.fr_new (decode_u256 raw))

  unfoldable pub decode_fq2 : Bytes → Decoded bn.Fq2
  unfolding decode_fq
  decode_fq2 raw = and_then (decode_fq (take scalar_size raw)) (λ real.
      and_then (decode_fq (drop scalar_size raw)) (λ imaginary. ok (bn.fq2_new real imaginary)))

  unfoldable pub decode_g1 : Bytes → Decoded bn.G1
  unfolding decode_fq
  decode_g1 raw = and_then (decode_fq (take scalar_size raw)) (λ x.
      and_then (decode_fq (drop scalar_size raw)) (λ y.
        if bn.fq_is_zero x && bn.fq_is_zero y
        then ok bn.g1_zero
        else ok_or (invalid_g1 raw) (bn.affine_g1 x y)))

  unfoldable pub decode_g2 : Bytes → Decoded bn.G2
  unfolding decode_fq2
  decode_g2 raw = and_then (decode_fq2 (take point_size raw)) (λ x.
      and_then (decode_fq2 (drop point_size raw)) (λ y.
        if bn.fq2_is_zero x && bn.fq2_is_zero y
        then ok bn.g2_zero
        else ok_or (invalid_g2 raw) (bn.affine_g2 x y)))

  unfoldable pub encode_fq : bn.Fq → Bytes
  unfolding encode_u256
  encode_fq val = encode_u256 (bn.into_u256 val)

  abbrev pub affine_or_zero : Option (bn.Fq × bn.Fq) → bn.Fq × bn.Fq
  affine_or_zero none = (bn.fq_zero, bn.fq_zero)
  affine_or_zero (some p) = p

  unfoldable pub encode_g1 : bn.G1 → Bytes
  unfolding encode_fq
  encode_g1 val = let (x, y) = affine_or_zero (bn.from_jacobian val) in encode_fq x ++ encode_fq y

  unfoldable pub multiexp_element : Bytes → Decoded (bn.G1 × bn.Fr)
  unfolding decode_g1 decode_fr
  multiexp_element chunk =
      and_then (decode_g1 (take point_size chunk))
        (λ g1. and_then (decode_fr (drop point_size chunk)) (λ fr. ok (g1, fr)))

  unfoldable pub g1_multiexp : List Bytes → Decoded Bytes
  unfolding multiexp_element encode_g1 decode_all
  g1_multiexp elements =
      and_then (decode_all multiexp_element elements) (λ es. ok (encode_g1 (bn.multiexp es)))

  unfoldable pub sum_element : Bytes → Decoded (Bool × bn.G1)
  unfolding decode_g1 decode_bool
  sum_element chunk =
      and_then (decode_bool (take bool_size chunk))
        (λ sign. and_then (decode_g1 (drop bool_size chunk)) (λ g1. ok (sign, g1)))

  unfoldable pub fold_sum : bn.G1 → List (Bool × bn.G1) → bn.G1
  fold_sum acc [] = acc
  fold_sum acc ((sign, x) ∷ r) = fold_sum (if sign then bn.sub acc x else bn.add acc x) r

  unfoldable pub g1_sum : List Bytes → Decoded Bytes
  unfolding sum_element fold_sum encode_g1 decode_all
  g1_sum elements =
      and_then (decode_all sum_element elements) (λ es. ok (encode_g1 (fold_sum bn.g1_zero es)))

  unfoldable pub pairing_element : Bytes → Decoded (bn.G1 × bn.G2)
  unfolding decode_g1 decode_g2
  pairing_element chunk =
      and_then (decode_g1 (take point_size chunk))
        (λ g1. and_then (decode_g2 (drop point_size chunk)) (λ g2. ok (g1, g2)))

  unfoldable pub pairing_check : List Bytes → Decoded Bool
  unfolding pairing_element decode_all
  pairing_check elements =
      and_then (decode_all pairing_element elements) (λ es. ok (bn.pairing_is_one es))
