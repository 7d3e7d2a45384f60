-- ===== src/Schnorr/Sha256.antt =====
-- schnorr.rs, `sha256_block_impl`, `sha256_impl`, `tagged_hash_impl`: SHA-256 on 32-bit words.
pub mod Blocks
pub mod Padding
use Prim.Native.Nat.{bit_and, bit_xor}
use mathlib.Core.List.{reverse}
use near_mock.Base.{
  ℕ, zero, suc, ◌+◌, ◌-◌, ◌*◌, ◌/◌, ◌%◌, ◌^◌, Bool, List, [], ◌∷◌, ◌++◌, Bytes, length, take, drop,
  replicate, leb, get_elem?, none, some, true, false,
}
use near_mock.Schnorr.Octets.{to_le_bytes}

abbrev pub u32_mod : ℕ
u32_mod = 2 ^ 32

abbrev pub rotate_right : ℕ → ℕ → ℕ
rotate_right x n = x / 2 ^ n + x % 2 ^ n * 2 ^ (32 - n)

abbrev pub wrapping_add : ℕ → ℕ → ℕ
wrapping_add a b = (a + b) % u32_mod

-- `SHA256_K`
abbrev sha256_k : List ℕ
sha256_k =
    0x428A2F98 ∷ 0x71374491 ∷ 0xB5C0FBCF ∷ 0xE9B5DBA5 ∷ 0x3956C25B ∷ 0x59F111F1 ∷ 0x923F82A4
    ∷ 0xAB1C5ED5 ∷ 0xD807AA98 ∷ 0x12835B01 ∷ 0x243185BE ∷ 0x550C7DC3 ∷ 0x72BE5D74 ∷ 0x80DEB1FE
    ∷ 0x9BDC06A7 ∷ 0xC19BF174 ∷ 0xE49B69C1 ∷ 0xEFBE4786 ∷ 0x0FC19DC6 ∷ 0x240CA1CC ∷ 0x2DE92C6F
    ∷ 0x4A7484AA ∷ 0x5CB0A9DC ∷ 0x76F988DA ∷ 0x983E5152 ∷ 0xA831C66D ∷ 0xB00327C8 ∷ 0xBF597FC7
    ∷ 0xC6E00BF3 ∷ 0xD5A79147 ∷ 0x06CA6351 ∷ 0x14292967 ∷ 0x27B70A85 ∷ 0x2E1B2138 ∷ 0x4D2C6DFC
    ∷ 0x53380D13 ∷ 0x650A7354 ∷ 0x766A0ABB ∷ 0x81C2C92E ∷ 0x92722C85 ∷ 0xA2BFE8A1 ∷ 0xA81A664B
    ∷ 0xC24B8B70 ∷ 0xC76C51A3 ∷ 0xD192E819 ∷ 0xD6990624 ∷ 0xF40E3585 ∷ 0x106AA070 ∷ 0x19A4C116
    ∷ 0x1E376C08 ∷ 0x2748774C ∷ 0x34B0BCB5 ∷ 0x391C0CB3 ∷ 0x4ED8AA4A ∷ 0x5B9CCA4F ∷ 0x682E6FF3
    ∷ 0x748F82EE ∷ 0x78A5636F ∷ 0x84C87814 ∷ 0x8CC70208 ∷ 0x90BEFFFA ∷ 0xA4506CEB ∷ 0xBEF9A3F7
    ∷ 0xC67178F2 ∷ []

be_word : ℕ → Bytes → ℕ
be_word acc [] = acc
be_word acc (b ∷ r) = be_word (acc * 256 + b) r

-- `u32::from_be_bytes` on `n` groups of four bytes, put before the words in `acc`: the newest first.
be_words : ℕ → Bytes → List ℕ → List ℕ
unfolding be_word
be_words zero bs acc = acc
be_words (suc n) bs acc = be_words n (drop 4 bs) (be_word 0 (take 4 bs) ∷ acc)

abbrev word_at : List ℕ → ℕ → ℕ
word_at w i = elim (get_elem? w i) [ none ↦ 0 | some x ↦ x ]

abbrev small_sigma0 : ℕ → ℕ
small_sigma0 x = bit_xor (bit_xor (rotate_right x 7) (rotate_right x 18)) (x / 2 ^ 3)

abbrev small_sigma1 : ℕ → ℕ
small_sigma1 x = bit_xor (bit_xor (rotate_right x 17) (rotate_right x 19)) (x / 2 ^ 10)

-- `n` further words of the schedule. The newest word stands first, so `w[i - 2]` is at 1.
unfoldable pub extend_schedule : ℕ → List ℕ → List ℕ
extend_schedule zero w = w
extend_schedule (suc n) w = extend_schedule n (
    wrapping_add
      (wrapping_add (wrapping_add (word_at w 15) (small_sigma0 (word_at w 14))) (word_at w 6))
      (small_sigma1 (word_at w 1))
    ∷ w)

pub record Words : Type 0 where
  pub a : ℕ
  pub b : ℕ
  pub c : ℕ
  pub d : ℕ
  pub e : ℕ
  pub f : ℕ
  pub g : ℕ
  pub hh : ℕ

abbrev big_sigma1 : ℕ → ℕ
big_sigma1 x = bit_xor (bit_xor (rotate_right x 6) (rotate_right x 11)) (rotate_right x 25)

abbrev big_sigma0 : ℕ → ℕ
big_sigma0 x = bit_xor (bit_xor (rotate_right x 2) (rotate_right x 13)) (rotate_right x 22)

abbrev ch : Words → ℕ
ch s = bit_xor (bit_and s.e s.f) (bit_and (u32_mod - 1 - s.e) s.g)

abbrev maj : Words → ℕ
maj s = bit_xor (bit_xor (bit_and s.a s.b) (bit_and s.a s.c)) (bit_and s.b s.c)

abbrev t1 : ℕ → ℕ → Words → ℕ
t1 k w s =
    wrapping_add (wrapping_add (wrapping_add (wrapping_add s.hh (big_sigma1 s.e)) (ch s)) k) w

unfoldable pub round : ℕ → ℕ → Words → Words
round k w s = record {
  a = wrapping_add (t1 k w s) (wrapping_add (big_sigma0 s.a) (maj s));
  b = s.a;
  c = s.b;
  d = s.c;
  e = wrapping_add s.d (t1 k w s);
  f = s.e;
  g = s.f;
  hh = s.g;
}

unfoldable pub rounds : List ℕ → List ℕ → Words → Words
unfolding round
rounds [] ws s = s
rounds (k ∷ ks) [] s = s
rounds (k ∷ ks) (w ∷ ws) s = rounds ks ws (round k w s)

abbrev add_words : Words → Words → Words
add_words h s = record {
  a = wrapping_add h.a s.a;
  b = wrapping_add h.b s.b;
  c = wrapping_add h.c s.c;
  d = wrapping_add h.d s.d;
  e = wrapping_add h.e s.e;
  f = wrapping_add h.f s.f;
  g = wrapping_add h.g s.g;
  hh = wrapping_add h.hh s.hh;
}

unfoldable pub sha256_block_impl : Words → Bytes → Words
unfolding be_words extend_schedule rounds
sha256_block_impl h block =
    add_words h (rounds sha256_k (reverse (extend_schedule 48 (be_words 16 block []))) h)

abbrev pub initial : Words
initial = record {
  a = 0x6A09E667;
  b = 0xBB67AE85;
  c = 0x3C6EF372;
  d = 0xA54FF53A;
  e = 0x510E527F;
  f = 0x9B05688C;
  g = 0x1F83D9AB;
  hh = 0x5BE0CD19;
}

-- The loop over whole blocks, on fuel: the state and the bytes that are left.
unfoldable pub absorb : ℕ → Words → Bytes → Words × Bytes
absorb zero h bs = (h, bs)
absorb (suc n) h bs = elim (leb 64 (length bs)) [
  | true ↦ absorb n (sha256_block_impl h (take 64 bs)) (drop 64 bs)
  | false ↦ (h, bs)
]

-- `to_be_bytes`, for `n` bytes.
unfoldable pub to_be_bytes : ℕ → ℕ → Bytes
to_be_bytes n x = reverse (to_le_bytes n x)

unfoldable pub out_bytes : Words → Bytes
unfolding to_be_bytes
out_bytes h =
    to_be_bytes 4 h.a
    ++ to_be_bytes 4 h.b
    ++ to_be_bytes 4 h.c
    ++ to_be_bytes 4 h.d
    ++ to_be_bytes 4 h.e
    ++ to_be_bytes 4 h.f
    ++ to_be_bytes 4 h.g
    ++ to_be_bytes 4 h.hh

-- What follows the loop: the rest with the end mark, in one block or two.
unfoldable pub finish : ℕ → Words × Bytes → Words
unfolding to_be_bytes
finish bit_len (h, bs) = elim (leb 56 (length bs)) [
  | true ↦
      sha256_block_impl (sha256_block_impl h (bs ++ 128 ∷ replicate (63 - length bs) 0))
        (replicate 56 0 ++ to_be_bytes 8 bit_len)
  | false ↦
      sha256_block_impl h (bs ++ (128 ∷ (replicate (55 - length bs) 0 ++ to_be_bytes 8 bit_len)))
]

unfoldable pub sha256_impl : Bytes → Bytes
unfolding absorb finish out_bytes
sha256_impl bs = out_bytes (finish (length bs * 8 % 2 ^ 64) (absorb (length bs) initial bs))

unfoldable pub tagged_hash_impl : Bytes → Bytes → Bytes
unfolding sha256_impl
tagged_hash_impl tag msg =
    let tag_hash = sha256_impl tag in sha256_impl (tag_hash ++ tag_hash ++ msg)
