-- ===== src/Bls.antt =====
-- bls_validate.rs: the validation of the points and scalars that BLS12-381 functions take. What the crate
-- blst computes is a parameter.
pub mod Items
pub mod Reads
pub mod Verdicts
pub mod Reference
pub mod Pairing
pub mod Tests
use near_mock.Base.{
  ℕ, zero, suc, ◌+◌, ◌*◌, ◌/◌, ◌%◌, Bool, true, false, not, ◌||◌, ◌&&◌, List, [], ◌∷◌, ◌++◌, Option,
  none, some, Bytes, length, take, drop, ltb, leb, ◌==◌, if◌then◌else◌,
}
use near_mock.Base.{ℕ_eq, bytes_Key}

abbrev pub not_in_group_fix_version : ℕ
not_in_group_fix_version = 1

abbrev pub bool_size : ℕ
bool_size = 1

abbrev pub scalar_size : ℕ
scalar_size = 32

abbrev pub fp_size : ℕ
fp_size = 48

abbrev pub fp2_size : ℕ
fp2_size = 96

abbrev pub p1_size : ℕ
p1_size = 96

abbrev pub p2_size : ℕ
p2_size = 192

abbrev pub p1_compress_size : ℕ
p1_compress_size = 48

abbrev pub p2_compress_size : ℕ
p2_compress_size = 96

-- The error of a bad total length, of which the text names the length and the item size.
pub data Outcome {ℓ} (A : Type ℓ) : Type ℓ where
  host_error : (input_len item_size : ℕ) → Outcome A
  refused : Outcome A
  accepted : A → Outcome A

-- `BLST_ERROR`, of which the code tells these apart.
pub data BlstError : Type 0 where
  success not_in_group other : BlstError

-- The functions of blst on one of the two groups.
pub record Blst (Fp P Affine : Type 0) : Type 0 where
  pub identity : P
  pub deserialize : Bytes → BlstError × Affine
  pub from_affine : Affine → P
  pub cneg : P → P
  pub add_or_double : P → P → P
  pub to_affine : P → Affine
  pub affine_serialize : Affine → Bytes
  pub in_g : P → Bool
  pub mult : P → Bytes → P
  pub map_to_g : Fp → P
  pub uncompress : Bytes → BlstError × Affine

-- `data[0] & 0x80 != 0`
abbrev pub high_bit : Bytes → Bool
high_bit [] = false
high_bit (b ∷ bs) = leb 128 b

abbrev pub head_or_zero : Bytes → ℕ
head_or_zero [] = 0
head_or_zero (b ∷ bs) = b

-- `data.chunks_exact(size)`, of which there are as many as the count says.
unfoldable pub chunks_exact : ℕ → ℕ → Bytes → List Bytes
chunks_exact zero size data_bytes = []
chunks_exact (suc n) size data_bytes =
    take size data_bytes ∷ chunks_exact n size (drop size data_bytes)

-- `check_input_size`, then the loop over the items.
unfoldable pub with_items {ℓ} : {A : Type ℓ} → Bytes → ℕ → (List Bytes → Outcome A) → Outcome A
unfolding chunks_exact
with_items data_bytes item_size rest = elim (length data_bytes % item_size == 0) [
  | false ↦ host_error (length data_bytes) item_size
  | true ↦ rest (chunks_exact (length data_bytes / item_size) item_size data_bytes)
]

abbrev pub is_accepted : ℕ → BlstError → Bool
is_accepted version success = true
is_accepted version not_in_group = leb not_in_group_fix_version version
is_accepted version other = false

-- The macro `bls12381_fn!`, with its sizes and its reader of field elements.
module _ {Fp P Affine : Type 0} (blst : Blst Fp P Affine)
    (point_size fp_point_size compress_size : ℕ) (read_fp : Bytes → Option Fp) where
  unfoldable pub parse_p : Bytes → ℕ → Option P
  parse_p point_data version =
      if high_bit point_data
      then none
      else let (error_code, pk_aff) = blst.deserialize point_data in
        if is_accepted version error_code then some (blst.from_affine pk_aff) else none

  unfoldable pub serialize_p : P → Bytes
  serialize_p res_pk = blst.affine_serialize (blst.to_affine res_pk)

  -- `none` where the sign is neither 0 nor 1.
  unfoldable pub signed : ℕ → P → Option P
  signed sign pk = if sign == 1 then some (blst.cneg pk) else if sign == 0 then some pk else none

  unfoldable pub sum_item : ℕ → Bytes → Option P
  unfolding parse_p signed
  sum_item version item = elim (parse_p (drop bool_size item) version) [
    | none ↦ none
    | some pk ↦ signed (head_or_zero item) pk
  ]

  unfoldable pub multiexp_item : ℕ → Bytes → Option P
  unfolding parse_p
  multiexp_item version item = elim (parse_p (take point_size item) version) [
    | none ↦ none
    | some pk ↦ if blst.in_g pk then some (blst.mult pk (drop point_size item)) else none
  ]

  -- The loop of `p_sum` and `g_multiexp`: an item that is refused ends it.
  unfoldable pub accumulate : (Bytes → Option P) → P → List Bytes → Outcome Bytes
  unfolding serialize_p
  accumulate item res_pk [] = accepted (serialize_p res_pk)
  accumulate item res_pk (x ∷ xs) = elim (item x) [
    | none ↦ refused
    | some pk ↦ accumulate item (blst.add_or_double res_pk pk) xs
  ]

  unfoldable pub p_sum : Bytes → ℕ → Outcome Bytes
  unfolding accumulate sum_item with_items
  p_sum data_bytes version =
      with_items data_bytes (bool_size + point_size) (accumulate (sum_item version) blst.identity)

  unfoldable pub g_multiexp : Bytes → ℕ → Outcome Bytes
  unfolding accumulate multiexp_item with_items
  g_multiexp data_bytes version =
      with_items data_bytes (point_size + scalar_size)
        (accumulate (multiexp_item version) blst.identity)

  unfoldable pub decompress_item : Bytes → Option Bytes
  decompress_item item =
      let (err, pk) = blst.uncompress item in
      if high_bit item && is_accepted not_in_group_fix_version err
      then some (blst.affine_serialize pk)
      else none

  unfoldable pub map_item : Bytes → Option Bytes
  unfolding serialize_p
  map_item item = elim (read_fp item) [
    | none ↦ none
    | some fp_point ↦ some (serialize_p (blst.map_to_g fp_point))
  ]

  -- The loop of `p_decompress` and `map_fp_to_g`.
  unfoldable pub collect : (Bytes → Option Bytes) → Bytes → List Bytes → Outcome Bytes
  collect item res [] = accepted res
  collect item res (x ∷ xs) = elim (item x) [
    | none ↦ refused
    | some out ↦ collect item (res ++ out) xs
  ]

  unfoldable pub p_decompress : Bytes → Outcome Bytes
  unfolding collect decompress_item with_items
  p_decompress data_bytes = with_items data_bytes compress_size (collect decompress_item [])

  unfoldable pub map_fp_to_g : Bytes → Outcome Bytes
  unfolding collect map_item with_items
  map_fp_to_g data_bytes = with_items data_bytes fp_point_size (collect map_item [])

-- `blst_fp_from_bendian` and `blst_bendian_from_fp`.
pub record BlstFp (Fp Fp2 : Type 0) : Type 0 where
  pub from_bendian : Bytes → Fp
  pub to_bendian : Fp → Bytes
  pub pair : Fp → Fp → Fp2

module _ {Fp Fp2 : Type 0} (fp : BlstFp Fp Fp2) where
  unfoldable pub read_fp_point : Bytes → Option Fp
  read_fp_point item =
      let fp_point = fp.from_bendian item in
      if fp.to_bendian fp_point == item then some fp_point else none

  -- The second half is the first component.
  unfoldable pub read_fp2_point : Bytes → Option Fp2
  read_fp2_point item =
      let c1 = fp.from_bendian (take fp_size item) in
      let c0 = fp.from_bendian (drop fp_size item) in
      if not (fp.to_bendian c0 == drop fp_size item)
      then none
      else if not (fp.to_bendian c1 == take fp_size item)
      then none
      else some (fp.pair c0 c1)
