-- ===== src/Schnorr/Sha256/Padding.antt =====
-- schnorr.rs, `sha256_impl`: its loop and its last one or two blocks are the standard padding, hashed
-- block by block.
use near_mock.Base.{
  ℕ, zero, suc, ◌+◌, ◌-◌, ◌*◌, ◌/◌, ◌%◌, ◌^◌, ◌≤◌, ◌<◌, ◌≡◌, refl, sym, ap, ap₂, ◌∙◌, [], ◌∷◌, ◌++◌,
  Bytes, arith, length, length-append, length-replicate, take, replicate, leb, leb→le, Bool-cases,
  inl, inr,
}
use near_mock.Schnorr.Octets.{to_le_bytes}
use near_mock.Schnorr.Sha256.{
  Words, sha256_block_impl, initial, absorb, to_be_bytes, out_bytes, finish, sha256_impl,
}
use near_mock.Schnorr.Sha256.Blocks.{
  hash_blocks, take-append_short, drop-append_short, take_all, drop_all, absorb-hash_blocks, leb→gt,
}

-- The zeros between the end mark and the length, as many as fill the last block.
abbrev pub zeros_for : ℕ → ℕ
zeros_for n = (119 - n % 64) % 64

abbrev pub bit_length : Bytes → Bytes
bit_length bs = to_be_bytes 8 (length bs * 8 % 2 ^ 64)

-- The padded message of the standard.
abbrev pub pad : Bytes → Bytes
pad bs = bs ++ (128 ∷ (replicate (zeros_for (length bs)) 0 ++ bit_length bs))

abbrev zeros : ℕ → Bytes
zeros n = replicate n 0

length-zeros : (n : ℕ) → length (zeros n) ≡ n
length-zeros n = length-replicate n 0

zeros-plus : (a b : ℕ) → zeros (a + b) ≡ zeros a ++ zeros b
zeros-plus zero b = ap zeros (left_zero b)
  where
    left_zero : (n : ℕ) → 0 + n ≡ n
    left_zero n = omega arith
zeros-plus (suc a) b = ap zeros (suc_plus a b) ∙ ap (λ r. 0 ∷ r) (zeros-plus a b)
  where
    suc_plus : (x y : ℕ) → suc x + y ≡ suc (x + y)
    suc_plus x y = omega arith

append_assoc : (xs ys zs : Bytes) → (xs ++ ys) ++ zs ≡ xs ++ (ys ++ zs)
append_assoc [] ys zs = refl
append_assoc (x ∷ xs) ys zs = ap (λ r. x ∷ r) (append_assoc xs ys zs)

-- Two blocks of which the first is full.
hash_two :
    (h : Words) (xs ys : Bytes)
    → length xs ≡ 64
    → length ys ≡ 64
    → hash_blocks 2 h (xs ++ ys) ≡ sha256_block_impl (sha256_block_impl h xs) ys
hash_two h xs ys ex ey =
    ap₂ (λ a b. sha256_block_impl (sha256_block_impl h a) (take 64 b))
      (take-append_short 64 xs ys (omega (arith, ex)) ∙ take_all 64 xs (omega (arith, ex)))
      (drop-append_short 64 xs ys (omega (arith, ex))
        ∙ ap (λ r. r ++ ys) (drop_all 64 xs (omega (arith, ex))))
    ∙ ap (sha256_block_impl (sha256_block_impl h xs)) (take_all 64 ys (omega (arith, ey)))

-- The rest of a message with its padding.
abbrev tail_of : Bytes → ℕ → Bytes
tail_of r bits = 128 ∷ (replicate (zeros_for (length r)) 0 ++ to_be_bytes 8 bits)

length-to_be_bytes_8 : (x : ℕ) → length (to_be_bytes 8 x) ≡ 8
unfolding to_be_bytes to_le_bytes
length-to_be_bytes_8 x = refl

length-last_block : (bits : ℕ) → length (zeros 56 ++ to_be_bytes 8 bits) ≡ 64
unfolding to_be_bytes to_le_bytes
length-last_block bits = refl

-- The two blocks of a long rest, joined.
two_blocks :
    (bits : ℕ) (r : Bytes)
    → 56 ≤ length r
    → length r < 64
    → (r ++ 128 ∷ zeros (63 - length r)) ++ (zeros 56 ++ to_be_bytes 8 bits) ≡ r ++ tail_of r bits
two_blocks bits r large small =
    append_assoc r (128 ∷ zeros (63 - length r)) (zeros 56 ++ to_be_bytes 8 bits)
    ∙ ap (λ x. r ++ 128 ∷ x)
        (sym (append_assoc (zeros (63 - length r)) (zeros 56) (to_be_bytes 8 bits))
          ∙ ap (λ z. z ++ to_be_bytes 8 bits)
              (sym (zeros-plus (63 - length r) 56) ∙ ap zeros (fill (length r) large small)))
  where
    fill : (n : ℕ) → 56 ≤ n → n < 64 → 63 - n + 56 ≡ zeros_for n
    fill n h h' = omega (arith, h, h')

finish-hash_blocks :
    (bits : ℕ) (h : Words) (r : Bytes)
    → length r < 64
    → finish bits (h, r) ≡ hash_blocks ((length r + 72) / 64) h (r ++ tail_of r bits)
unfolding finish
finish-hash_blocks bits h r small = elim (Bool-cases (leb 56 (length r))) [
  | inl e ↦
      let large = leb→le 56 (length r) e in
      rw (e, finish)
        (sym (
            hash_two h (r ++ 128 ∷ zeros (63 - length r)) (zeros 56 ++ to_be_bytes 8 bits)
              (first_length large) (length-last_block bits))
          ∙ ap (hash_blocks 2 h) (two_blocks bits r large small)
          ∙ ap (λ n. hash_blocks n h (r ++ tail_of r bits)) (two (length r) large small))
  | inr e ↦
      let short = leb→gt 56 (length r) e in
      rw (e, finish)
        (ap (λ z. sha256_block_impl h (r ++ (128 ∷ (zeros z ++ to_be_bytes 8 bits))))
            (fill (length r) short)
          ∙ ap (sha256_block_impl h) (sym (take_all 64 (r ++ tail_of r bits) (whole_length short)))
          ∙ ap (λ n. hash_blocks n h (r ++ tail_of r bits)) (one (length r) short))
]
  where
    first_length : 56 ≤ length r → length (r ++ 128 ∷ zeros (63 - length r)) ≡ 64
    first_length large =
        omega (
          arith,
          length-append r (128 ∷ zeros (63 - length r)),
          length-zeros (63 - length r),
          small,
        )

    whole_length : length r < 56 → length (r ++ tail_of r bits) ≤ 64
    whole_length short = omega (
      arith,
      short,
      length-append r (tail_of r bits),
      length-append (zeros (zeros_for (length r))) (to_be_bytes 8 bits),
      length-zeros (zeros_for (length r)),
      length-to_be_bytes_8 bits,
    )

    two : (n : ℕ) → 56 ≤ n → n < 64 → 2 ≡ (n + 72) / 64
    two n a b = omega (arith, a, b)

    one : (n : ℕ) → n < 56 → 1 ≡ (n + 72) / 64
    one n a = omega (arith, a)

    fill : (n : ℕ) → n < 56 → 55 - n ≡ zeros_for n
    fill n a = omega (arith, a)

finish-absorb :
    (bs : Bytes)
    → finish (length bs * 8 % 2 ^ 64) (absorb (length bs) initial bs)
      ≡ hash_blocks ((length bs + 72) / 64) initial (pad bs)
finish-absorb bs =
    let (blocks, rest) =
      absorb-hash_blocks (length bs) initial bs (padding (length bs)) ((length bs % 64 + 72) / 64)
        (omega arith) in
    let (h, r) = absorb (length bs) initial bs in
    finish-hash_blocks (length bs * 8 % 2 ^ 64) h r (omega (arith, rest))
    ∙ ap (λ k. hash_blocks ((k + 72) / 64) h (r ++ padding k)) rest
    ∙ ap (λ k. hash_blocks ((length bs % 64 + 72) / 64) h (r ++ (128 ∷ (zeros k ++ bit_length bs))))
        (same_zeros (length bs))
    ∙ sym blocks
    ∙ ap (λ k. hash_blocks k initial (pad bs)) (count (length bs))
  where
    padding : ℕ → Bytes
    padding k = 128 ∷ (zeros (zeros_for k) ++ bit_length bs)

    same_zeros : (n : ℕ) → zeros_for (n % 64) ≡ zeros_for n
    same_zeros n = omega arith

    count : (n : ℕ) → n / 64 + (n % 64 + 72) / 64 ≡ (n + 72) / 64
    count n = omega arith

-- The hash of a message is that of the standard: the message with the end mark, zeros and its length
-- in bits is a whole number of blocks of 64 bytes, hashed in order from the initial state.
pub sha256_impl-hash_blocks :
    (bs : Bytes)
    → (sha256_impl bs ≡ out_bytes (hash_blocks ((length bs + 72) / 64) initial (pad bs)))
      × (length (pad bs) ≡ 64 * ((length bs + 72) / 64))
unfolding sha256_impl
sha256_impl-hash_blocks bs = (
  ap out_bytes (finish-absorb bs),
  omega (
    arith,
    length-append bs (128 ∷ (zeros (zeros_for (length bs)) ++ bit_length bs)),
    length-append (zeros (zeros_for (length bs))) (bit_length bs),
    length-zeros (zeros_for (length bs)),
    length-to_be_bytes_8 (length bs * 8 % 2 ^ 64),
  ),
)
