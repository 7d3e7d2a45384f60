-- ===== src/Bls/Reads.antt =====
-- bls_validate.rs: which inputs the functions of a group accept, and with which result, in terms of
-- what the crate says of each item.

use near_mock.Base.{
  ℕ, ◌/◌, ◌%◌, ◌≤◌, ◌<◌, ◌≡◌, true, List, [], ◌∷◌, Option, some, Bytes, length, take, drop,
}
use near_mock.Base.{ℕ_eq}
use near_mock.Bls.{
  Outcome, host_error, refused, accepted, Blst, BlstError, success, not_in_group,
  not_in_group_fix_version, bool_size, chunks_exact, head_or_zero,
}

-- The first byte has its highest bit unset, as in an uncompressed point.
abbrev pub IsUncompressed : Bytes → Type 0
IsUncompressed [] = Unit
IsUncompressed (b ∷ bs) = b < 128

abbrev pub IsCompressed : Bytes → Type 0
IsCompressed [] = ⊥
IsCompressed (b ∷ bs) = 128 ≤ b

-- The crate's verdict on a point, from version 1 on also on one that is not in the group.
pub data Passes (version : ℕ) : BlstError → Type 0 where
  good : Passes version success
  outside : 1 ≤ version → Passes version not_in_group

module _ {Fp P Affine : Type 0} (blst : Blst Fp P Affine) where
  -- Bytes that stand for a point.
  pub record IsPoint (version : ℕ) (bytes : Bytes) (point : P) : Type 0 where
    pub plain : IsUncompressed bytes
    pub passes : Passes version (blst.deserialize bytes).0
    pub same : point ≡ blst.from_affine (blst.deserialize bytes).1

  -- A sign, which is 0 or 1, and a point: the point or its negative.
  pub data IsSummand (version : ℕ) (item : Bytes) : P → Type 0 where
    plus :
        (q : P)
        → head_or_zero item ≡ 0
        → IsPoint version (drop bool_size item) q
        → IsSummand version item q
    minus :
        (q : P)
        → head_or_zero item ≡ 1
        → IsPoint version (drop bool_size item) q
        → IsSummand version item (blst.cneg q)

  -- A point of the group and a scalar: their product.
  pub data IsMultiple (point_size version : ℕ) (item : Bytes) : P → Type 0 where
    multiple :
        (q : P)
        → IsPoint version (take point_size item) q
        → blst.in_g q ≡ true
        → IsMultiple point_size version item (blst.mult q (drop point_size item))

  -- A compressed point, which may lie outside of the group: the serialized point.
  pub record IsDecompressed (item out : Bytes) : Type 0 where
    pub packed : IsCompressed item
    pub passes : Passes not_in_group_fix_version (blst.uncompress item).0
    pub same : out ≡ blst.affine_serialize (blst.uncompress item).1

  -- A field element: the serialized point that it is mapped to.
  pub data IsMapped (read_fp : Bytes → Option Fp) (item : Bytes) : Bytes → Type 0 where
    mapped :
        (fp : Fp)
        → read_fp item ≡ some fp
        → IsMapped read_fp item (blst.affine_serialize (blst.to_affine (blst.map_to_g fp)))

-- Each item reads as the result in its place.
abbrev pub ReadsAll : {A : Type 0} → (Bytes → A → Type 0) → List Bytes → List A → Type 0
ReadsAll R [] [] = Unit
ReadsAll R [] (a ∷ rs) = ⊥
ReadsAll R (x ∷ xs) [] = ⊥
ReadsAll R (x ∷ xs) (a ∷ rs) = R x a × ReadsAll R xs rs

-- The items of the data.
abbrev pub items_of : ℕ → Bytes → List Bytes
items_of size data_bytes = chunks_exact (length data_bytes / size) size data_bytes

-- What a function does whose items read by `R`, and whose result is that of all of them.
pub data Judged {A : Type 0} (size : ℕ) (R : Bytes → A → Type 0) (result : List A → Bytes)
    (data_bytes : Bytes) : Outcome Bytes → Type 0 where
  bad_length :
      ¬ (length data_bytes % size ≡ 0)
      → Judged size R result data_bytes (host_error (length data_bytes) size)
  malformed :
      length data_bytes % size ≡ 0
      → ((items : List A) → ¬ ReadsAll R (items_of size data_bytes) items)
      → Judged size R result data_bytes refused
  fine :
      (items : List A)
      → length data_bytes % size ≡ 0
      → ReadsAll R (items_of size data_bytes) items
      → Judged size R result data_bytes (accepted (result items))
