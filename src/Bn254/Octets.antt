-- ===== src/Bn254/Octets.antt =====
-- bn254.rs: the bytes of a point read back as the point.
use near_mock.Base.{
  ℕ, zero, suc, ◌+◌, ◌^◌, ◌<◌, ◌≡◌, refl, ap, ap₂, sym, ◌∙◌, true, false, ◌&&◌, [], ◌∷◌, ◌++◌, none,
  some, Bytes, arith, length, length-append, take, drop, Option-cases, inl, inr, if◌then◌else◌,
}
use near_mock.Base.Utf8.{from_le_bytes, to_le_bytes, length-to_le_bytes, from_le_bytes-to_le_bytes}
use near_mock.Bn254.{
  ok, ok_or, invalid_fq, invalid_g1, U256, Bn, decode_u256, encode_u256, decode_fq, encode_fq,
  decode_g1, encode_g1, affine_or_zero, scalar_size,
}

take-append : (n : ℕ) (xs ys : Bytes) → length xs ≡ n → take n (xs ++ ys) ≡ xs
take-append zero [] ys e = refl
take-append zero (x ∷ xs) ys e = absurd (omega (arith, e))
take-append (suc n) [] ys e = absurd (omega (arith, e))
take-append (suc n) (x ∷ xs) ys e = ap (λ r. x ∷ r) (take-append n xs ys (omega (arith, e)))

drop-append : (n : ℕ) (xs ys : Bytes) → length xs ≡ n → drop n (xs ++ ys) ≡ ys
drop-append zero [] ys e = refl
drop-append zero (x ∷ xs) ys e = absurd (omega (arith, e))
drop-append (suc n) [] ys e = absurd (omega (arith, e))
drop-append (suc n) (x ∷ xs) ys e = drop-append n xs ys (omega (arith, e))

-- Both halves on 128 bits.
abbrev pub IsU256 : U256 → Type 0
IsU256 (lo, hi) = (lo < 256 ^ 16) × (hi < 256 ^ 16)

decode_u256-encode_u256 : (v : U256) → IsU256 v → decode_u256 (encode_u256 v) ≡ v
unfolding decode_u256 encode_u256
decode_u256-encode_u256 (lo, hi) (l, h) =
    ap₂ (λ a b. (from_le_bytes a, from_le_bytes b))
      (take-append 16 (to_le_bytes 16 lo) (to_le_bytes 16 hi) (length-to_le_bytes 16 lo))
      (drop-append 16 (to_le_bytes 16 lo) (to_le_bytes 16 hi) (length-to_le_bytes 16 lo))
    ∙ ap₂ (λ a b. (a, b)) (from_le_bytes-to_le_bytes 16 lo l) (from_le_bytes-to_le_bytes 16 hi h)

module _ (bn : Bn) where
  -- What the crate says of its numbers and points: a number reads back as itself, on two halves of 128
  -- bits; zero is zero; an affine point is that of its coordinates, which are not both zero; and a
  -- point without affine coordinates is zero.
  pub record IsFaithful : Type 0 where
    pub halves : (x : bn.Fq) → IsU256 (bn.into_u256 x)
    pub number : (x : bn.Fq) → bn.from_u256 (bn.into_u256 x) ≡ some x
    pub zero_number : bn.fq_is_zero bn.fq_zero ≡ true
    pub finite :
        (v : bn.G1) (x y : bn.Fq)
        → bn.from_jacobian v ≡ some (x, y)
        → (bn.affine_g1 x y ≡ some v) × ((bn.fq_is_zero x && bn.fq_is_zero y) ≡ false)
    pub infinite : (v : bn.G1) → bn.from_jacobian v ≡ none → v ≡ bn.g1_zero

  module _ (faithful : IsFaithful) where
    decode_fq-encode_fq : (x : bn.Fq) → decode_fq bn (encode_fq bn x) ≡ ok x
    unfolding decode_fq encode_fq
    decode_fq-encode_fq x =
        ap (λ v. ok_or (invalid_fq (encode_u256 (bn.into_u256 x))) (bn.from_u256 v))
          (decode_u256-encode_u256 (bn.into_u256 x) (faithful.halves x))
        ∙ ap (ok_or (invalid_fq (encode_u256 (bn.into_u256 x)))) (faithful.number x)

    length-encode_fq : (x : bn.Fq) → length (encode_fq bn x) ≡ scalar_size
    unfolding encode_fq encode_u256
    length-encode_fq x =
        let (lo, hi) = bn.into_u256 x in
        length-append (to_le_bytes 16 lo) (to_le_bytes 16 hi)
        ∙ ap₂ (λ a b. a + b) (length-to_le_bytes 16 lo) (length-to_le_bytes 16 hi)

    decode_both :
        (x y : bn.Fq)
        → decode_g1 bn (encode_fq bn x ++ encode_fq bn y) ≡ (
            if bn.fq_is_zero x && bn.fq_is_zero y
            then ok bn.g1_zero
            else ok_or (invalid_g1 (encode_fq bn x ++ encode_fq bn y)) (bn.affine_g1 x y))
    unfolding decode_g1
    decode_both x y =
        rw
          (
            take-append scalar_size (encode_fq bn x) (encode_fq bn y) (length-encode_fq x),
            drop-append scalar_size (encode_fq bn x) (encode_fq bn y) (length-encode_fq x),
            decode_fq-encode_fq x,
            decode_fq-encode_fq y,
            decode_g1,
          )
          refl

    -- The 64 bytes of a point read back as the point, the point at infinity included.
    pub decode_g1-encode_g1 : (v : bn.G1) → decode_g1 bn (encode_g1 bn v) ≡ ok v
    unfolding encode_g1
    decode_g1-encode_g1 v = elim (Option-cases (bn.from_jacobian v)) [
      | inl e ↦
          rw (e, encode_g1, affine_or_zero, decode_both bn.fq_zero bn.fq_zero, faithful.zero_number)
            (ap ok (sym (faithful.infinite v e)))
      | inr ((x, y), e) ↦
          let (point, nonzero) = faithful.finite v x y e in
          rw (e, encode_g1, affine_or_zero, decode_both x y, nonzero, point) refl
    ]
