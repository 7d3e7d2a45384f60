-- ===== src/Bls/Pairing.antt =====
-- bls_validate.rs, `pairing_check`, and the dispatch of `eval`.
use near_mock.Base.{
  ℕ, ◌+◌, Bool, true, false, not, ◌||◌, List, [], ◌∷◌, ◌++◌, Option, none, some, Bytes, take, drop,
  if◌then◌else◌,
}
use near_mock.Base.{ℕ_eq}
use near_mock.Bls.{
  Outcome, accepted, BlstError, success, not_in_group, other, Blst, BlstFp, with_items, high_bit,
  p1_size, p2_size, fp_size, fp2_size, p1_compress_size, p2_compress_size, not_in_group_fix_version,
  p_sum, g_multiexp, p_decompress, map_fp_to_g, read_fp_point, read_fp2_point,
}

-- The functions of blst on both groups that the pairing takes.
pub record BlstPairing (A1 A2 F : Type 0) : Type 0 where
  pub deserialize1 : Bytes → BlstError × A1
  pub in_g1 : A1 → Bool
  pub deserialize2 : Bytes → BlstError × A2
  pub in_g2 : A2 → Bool
  pub fp12_one : F
  pub mul : F → F → F
  pub miller_loop : A2 → A1 → F
  pub final_exp : F → F
  pub is_one : F → Bool

abbrev pub is_success : BlstError → Bool
is_success success = true
is_success not_in_group = false
is_success other = false

module _ {A1 A2 F : Type 0} (blst : BlstPairing A1 A2 F) where
  -- One item of the loop, `none` where it returns 1.
  unfoldable pub pair_item : Bytes → Option (A1 × A2)
  pair_item item =
      let (error1, g1) = blst.deserialize1 (take p1_size item) in
      let (error2, g2) = blst.deserialize2 (drop p1_size item) in
      if high_bit (take p1_size item)
        || not (is_success error1)
        || not (blst.in_g1 g1)
        || high_bit (drop p1_size item)
        || not (is_success error2)
        || not (blst.in_g2 g2)
      then none
      else some (g1, g2)

  -- `pairing_fp12 *= miller_loop(g2, g1)` over the lists, then the final test.
  unfoldable pub pair_result : F → List (A1 × A2) → ℕ
  pair_result acc [] = if blst.is_one (blst.final_exp acc) then 0 else 2
  pair_result acc ((g1, g2) ∷ r) = pair_result (blst.mul acc (blst.miller_loop g2 g1)) r

  unfoldable pub pair_items : List (A1 × A2) → List Bytes → Outcome ℕ
  unfolding pair_item pair_result
  pair_items seen [] = accepted (pair_result blst.fp12_one seen)
  pair_items seen (x ∷ xs) = elim (pair_item x) [
    | none ↦ accepted 1
    | some pair ↦ pair_items (seen ++ pair ∷ []) xs
  ]

  unfoldable pub pairing_check : Bytes → Outcome ℕ
  unfolding pair_items with_items
  pairing_check data_bytes = with_items data_bytes (p1_size + p2_size) (pair_items [])

-- All of blst.
pub record BlstAll : Type 1 where
  pub Fp : Type 0
  pub Fp2 : Type 0
  pub P1 : Type 0
  pub P2 : Type 0
  pub A1 : Type 0
  pub A2 : Type 0
  pub F : Type 0
  pub fp : BlstFp Fp Fp2
  pub group1 : Blst Fp P1 A1
  pub group2 : Blst Fp2 P2 A2
  pub pairing : BlstPairing A1 A2 F

pub data Kind : Type 0 where
  p1_sum p2_sum g1_multiexp g2_multiexp map_fp_to_g1 map_fp2_to_g2 p1_decompress p2_decompress :
      Kind

-- Each kind with the sizes of its group.
unfoldable pub eval : BlstAll → Kind → Bytes → Outcome Bytes
unfolding p_sum g_multiexp map_fp_to_g p_decompress read_fp_point read_fp2_point
eval b p1_sum d =
    p_sum b.group1 p1_size fp_size p1_compress_size (read_fp_point b.fp) d not_in_group_fix_version
eval b p2_sum d =
    p_sum b.group2 p2_size fp2_size p2_compress_size (read_fp2_point b.fp) d
      not_in_group_fix_version
eval b g1_multiexp d =
    g_multiexp b.group1 p1_size fp_size p1_compress_size (read_fp_point b.fp) d
      not_in_group_fix_version
eval b g2_multiexp d =
    g_multiexp b.group2 p2_size fp2_size p2_compress_size (read_fp2_point b.fp) d
      not_in_group_fix_version
eval b map_fp_to_g1 d = map_fp_to_g b.group1 p1_size fp_size p1_compress_size (read_fp_point b.fp) d
eval b map_fp2_to_g2 d =
    map_fp_to_g b.group2 p2_size fp2_size p2_compress_size (read_fp2_point b.fp) d
eval b p1_decompress d =
    p_decompress b.group1 p1_size fp_size p1_compress_size (read_fp_point b.fp) d
eval b p2_decompress d =
    p_decompress b.group2 p2_size fp2_size p2_compress_size (read_fp2_point b.fp) d
