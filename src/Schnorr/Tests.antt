-- ===== src/Schnorr/Tests.antt =====
-- Runs of schnorr.rs: the test vector "abc" of SHA-256, and field elements near both ends.
use near_mock.Base.{
  Bytes, length, false, ◌⊎◌, ℕ, ◌-◌, ◌*◌, ◌%◌, ◌^◌, List, ◌≡◌, refl, ◌∷◌, [], arith,
}
use near_mock.Schnorr.Limbs.{value}
use near_mock.Schnorr.Field.{p}
use near_mock.Schnorr.Field.Laws.{IsFe}
use near_mock.Schnorr.Product.{fe_mul}
use near_mock.Schnorr.Product.Laws.{fe_mul-value}
use near_mock.Schnorr.Power.{fe_inv}
use near_mock.Schnorr.Power.Laws.{fe_inv-value}
use near_mock.Schnorr.Octets.{be_bytes_to_fe, fe_to_be_bytes, be_bytes_to_fe-fe_to_be_bytes}
use near_mock.Schnorr.Sha256.{sha256_impl, sha256_block_impl}
use near_mock.Schnorr.Sha256.{out_bytes, initial}
use near_mock.Schnorr.Sha256.Blocks.{hash_blocks}
use near_mock.Schnorr.Sha256.Padding.{pad, sha256_impl-hash_blocks}
use near_mock.Schnorr.Verify.Accepted.{IsAccepted, schnorr_verify_impl-IsAccepted}
use near_mock.Schnorr.Verify.{schnorr_verify_impl, g_x}

sha256_impl_abc :
    sha256_impl (97 ∷ 98 ∷ 99 ∷ [])
    ≡ 186 ∷ 120 ∷ 22 ∷ 191 ∷ 143 ∷ 1 ∷ 207 ∷ 234 ∷ 65 ∷ 65 ∷ 64 ∷ 222 ∷ 93 ∷ 174 ∷ 34 ∷ 35 ∷ 176 ∷ 3
      ∷ 97 ∷ 163 ∷ 150 ∷ 23 ∷ 122 ∷ 156 ∷ 180 ∷ 16 ∷ 255 ∷ 97 ∷ 242 ∷ 0 ∷ 21 ∷ 173 ∷ []
unfolding sha256_impl near_mock.Schnorr.Octets.to_le_bytes sha256_block_impl
sha256_impl_abc = refl

abbrev big : List ℕ
big = 0xFFFFFFFFFFFFFFFF ∷ 0xFFFFFFFFFFFFFFFF ∷ 0xFFFFFFFFFFFFFFFF ∷ 0xFFFFFFFFFFFFFFFE ∷ []

big-IsFe : IsFe big
big-IsFe = (omega arith, omega arith)

g_x-IsFe : IsFe g_x
g_x-IsFe = (omega arith, omega arith)

fe_mul-value_example : IsFe (fe_mul big g_x) × (value (fe_mul big g_x) ≡ value big * value g_x % p)
fe_mul-value_example = fe_mul-value big g_x big-IsFe.0 g_x-IsFe.0

fe_inv-value_example : IsFe (fe_inv g_x) × (value (fe_inv g_x) ≡ value g_x ^ (p - 2) % p)
fe_inv-value_example = fe_inv-value g_x g_x-IsFe.0

sha256_impl-hash_blocks_example :
    (sha256_impl (97 ∷ 98 ∷ 99 ∷ []) ≡ out_bytes (hash_blocks 1 initial (pad (97 ∷ 98 ∷ 99 ∷ []))))
    × (length (pad (97 ∷ 98 ∷ 99 ∷ [])) ≡ 64)
sha256_impl-hash_blocks_example = sha256_impl-hash_blocks (97 ∷ 98 ∷ 99 ∷ [])

-- The vector of `test_schnorr_v1_direct`, which the code accepts.
abbrev v1_pk : Bytes
v1_pk =
    223 ∷ 241 ∷ 215 ∷ 127 ∷ 42 ∷ 103 ∷ 28 ∷ 95 ∷ 54 ∷ 24 ∷ 55 ∷ 38 ∷ 219 ∷ 35 ∷ 65 ∷ 190 ∷ 88 ∷ 254
    ∷ 174 ∷ 29 ∷ 162 ∷ 222 ∷ 206 ∷ 216 ∷ 67 ∷ 36 ∷ 15 ∷ 123 ∷ 80 ∷ 43 ∷ 166 ∷ 89 ∷ []

abbrev v1_sig : Bytes
v1_sig =
    104 ∷ 150 ∷ 189 ∷ 96 ∷ 238 ∷ 174 ∷ 41 ∷ 109 ∷ 180 ∷ 138 ∷ 34 ∷ 159 ∷ 247 ∷ 29 ∷ 254 ∷ 7 ∷ 27
    ∷ 222 ∷ 65 ∷ 62 ∷ 109 ∷ 67 ∷ 249 ∷ 23 ∷ 220 ∷ 141 ∷ 207 ∷ 140 ∷ 120 ∷ 222 ∷ 51 ∷ 65 ∷ 137 ∷ 6
    ∷ 209 ∷ 26 ∷ 201 ∷ 118 ∷ 171 ∷ 204 ∷ 178 ∷ 11 ∷ 9 ∷ 18 ∷ 146 ∷ 191 ∷ 244 ∷ 234 ∷ 137 ∷ 126 ∷ 252
    ∷ 182 ∷ 57 ∷ 234 ∷ 135 ∷ 28 ∷ 250 ∷ 149 ∷ 246 ∷ 222 ∷ 51 ∷ 158 ∷ 75 ∷ 10 ∷ []

abbrev v1_msg : Bytes
v1_msg =
    36 ∷ 63 ∷ 106 ∷ 136 ∷ 133 ∷ 163 ∷ 8 ∷ 211 ∷ 19 ∷ 25 ∷ 138 ∷ 46 ∷ 3 ∷ 112 ∷ 115 ∷ 68 ∷ 164 ∷ 9
    ∷ 56 ∷ 34 ∷ 41 ∷ 159 ∷ 49 ∷ 208 ∷ 8 ∷ 46 ∷ 250 ∷ 152 ∷ 236 ∷ 78 ∷ 108 ∷ 137 ∷ []

schnorr_verify_impl-IsAccepted_example :
    (schnorr_verify_impl v1_pk v1_sig v1_msg ≡ false) ⊎ IsAccepted v1_pk v1_sig v1_msg
schnorr_verify_impl-IsAccepted_example =
    schnorr_verify_impl-IsAccepted v1_pk v1_sig v1_msg (omega arith) (omega arith)
