-- ===== src/Schnorr/Sha256/Blocks.antt =====
-- schnorr.rs, `sha256_impl`: the loop over whole blocks of 64 bytes.
use near_mock.Base.{
  ℕ, zero, suc, ◌+◌, ◌-◌, ◌/◌, ◌%◌, ◌≤◌, ◌<◌, ◌≡◌, refl, ap, ap₂, ◌∙◌, false, [], ◌∷◌, ◌++◌, Bytes,
  arith, length, take, drop, leb, leb→le, Bool-cases, inl, inr,
}
use near_mock.Schnorr.Sha256.{Words, sha256_block_impl, absorb}

-- The hash of `n` blocks of 64 bytes.
abbrev pub hash_blocks : ℕ → Words → Bytes → Words
hash_blocks zero h bs = h
hash_blocks (suc n) h bs = hash_blocks n (sha256_block_impl h (take 64 bs)) (drop 64 bs)

pub take-append_short : (n : ℕ) (xs ys : Bytes) → n ≤ length xs → take n (xs ++ ys) ≡ take n xs
take-append_short zero xs ys h = refl
take-append_short (suc n) [] ys h = absurd (omega (arith, h))
take-append_short (suc n) (x ∷ xs) ys h =
    ap (λ r. x ∷ r) (take-append_short n xs ys (omega (arith, h)))

pub drop-append_short :
    (n : ℕ) (xs ys : Bytes) → n ≤ length xs → drop n (xs ++ ys) ≡ drop n xs ++ ys
drop-append_short zero xs ys h = refl
drop-append_short (suc n) [] ys h = absurd (omega (arith, h))
drop-append_short (suc n) (x ∷ xs) ys h = drop-append_short n xs ys (omega (arith, h))

length-drop : (n : ℕ) (xs : Bytes) → length (drop n xs) ≡ length xs - n
length-drop zero xs = omega arith
length-drop (suc n) [] = omega arith
length-drop (suc n) (x ∷ xs) = length-drop n xs ∙ omega arith

pub take_all : (n : ℕ) (xs : Bytes) → length xs ≤ n → take n xs ≡ xs
take_all zero [] h = refl
take_all zero (x ∷ xs) h = absurd (omega (arith, h))
take_all (suc n) [] h = refl
take_all (suc n) (x ∷ xs) h = ap (λ r. x ∷ r) (take_all n xs (omega (arith, h)))

pub drop_all : (n : ℕ) (xs : Bytes) → length xs ≤ n → drop n xs ≡ []
drop_all zero [] h = refl
drop_all zero (x ∷ xs) h = absurd (omega (arith, h))
drop_all (suc n) [] h = refl
drop_all (suc n) (x ∷ xs) h = drop_all n xs (omega (arith, h))

no_block : (n m : ℕ) → n < 64 → n / 64 + m ≡ m
no_block n m h = omega (arith, h)

rest_small : (n : ℕ) → n < 64 → n ≡ n % 64
rest_small n h = omega (arith, h)

pub leb→gt : (a b : ℕ) → leb a b ≡ false → b < a
leb→gt a b e = ground (arith, e)

-- What the loop leaves, and how the blocks it took stand for those of the whole.
pub absorb-hash_blocks :
    (n : ℕ) (h : Words) (bs t : Bytes) (m : ℕ)
    → length bs ≤ n
    → (hash_blocks (length bs / 64 + m) h (bs ++ t)
        ≡ hash_blocks m (absorb n h bs).0 ((absorb n h bs).1 ++ t))
      × (length (absorb n h bs).1 ≡ length bs % 64)
unfolding absorb
absorb-hash_blocks zero h [] t m le =
    (ap (λ k. hash_blocks k h t) (no_block 0 m (omega arith)), omega arith)
absorb-hash_blocks zero h (b ∷ bs) t m le = absurd (omega (arith, le))
absorb-hash_blocks (suc n) h bs t m le = elim (Bool-cases (leb 64 (length bs))) [
  | inr e ↦
      rw (e, absorb)
        (
          ap (λ k. hash_blocks k h (bs ++ t)) (no_block (length bs) m (leb→gt 64 (length bs) e)),
          rest_small (length bs) (leb→gt 64 (length bs) e),
        )
  | inl e ↦
      let big = leb→le 64 (length bs) e in
      let shorter = length-drop 64 bs in
      let (blocks, rest) =
        absorb-hash_blocks n (sha256_block_impl h (take 64 bs)) (drop 64 bs) t m
          (omega (arith, shorter)) in
      rw (e, absorb)
        (
          ap (λ k. hash_blocks k h (bs ++ t)) (one_block big)
              ∙ ap₂ (hash_blocks (length (drop 64 bs) / 64 + m))
                  (ap (sha256_block_impl h) (take-append_short 64 bs t big))
                  (drop-append_short 64 bs t big)
              ∙ blocks,
          rest ∙ omega (arith, shorter),
        )
]
  where
    one_block : 64 ≤ length bs → length bs / 64 + m ≡ suc (length (drop 64 bs) / 64 + m)
    one_block big = omega (arith, length-drop 64 bs)
