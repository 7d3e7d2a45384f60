-- ===== src/Bls/Verdicts.antt =====
-- bls_validate.rs: the functions of a group, on whole inputs.

use near_mock.Base.{
  subst, ℕ, ◌+◌, ◌%◌, ◌≡◌, inl, inr, refl, sym, ◌∙◌, Bool-cases, List, [], ◌∷◌, Option, some, Bytes,
  arith, length, ◌==◌, Option-cases,
}
use near_mock.Base.{ℕ_eq}
use near_mock.Bls.{
  Blst, bool_size, scalar_size, p_sum, g_multiexp, p_decompress, map_fp_to_g, serialize_p,
}
use near_mock.Bls.Reference.{all_items, foldl, concat, reference, group_functions-AsReference}
use near_mock.Bls.Reads.{
  IsSummand, IsMultiple, IsDecompressed, IsMapped, ReadsAll, items_of, Judged, bad_length,
  malformed, fine,
}
use near_mock.Bls.Items.{
  Decides, not_none, some-eq, sum_item-IsSummand, multiexp_item-IsMultiple,
  decompress_item-IsDecompressed, map_item-IsMapped,
}

cons_not_nil : {A : Type 0} (a : A) (rs : List A) → ¬ (some [] ≡ some (a ∷ rs))
cons_not_nil a rs e = cc

all_items-ReadsAll :
    {A : Type 0} (f : Bytes → Option A) (R : Bytes → A → Type 0) (xs : List Bytes) (rs : List A)
    → Decides f R
    → all_items f xs ≡ some rs
    → ReadsAll R xs rs
all_items-ReadsAll f R [] [] d e = tt
all_items-ReadsAll f R [] (a ∷ rs) d e = absurd (cons_not_nil a rs e)
all_items-ReadsAll {A} f R (x ∷ xs) rs d e = elim (Option-cases (f x)) [
  | inl n ↦ absurd (not_none rs (sym (rw (n, all_items) refl) ∙ e))
  | inr (a, s) ↦ elim (Option-cases (all_items f xs)) [
    | inl n ↦ absurd (not_none rs (sym (rw (s, n, all_items) refl) ∙ e))
    | inr (bs, t) ↦
        let whole : all_items f (x ∷ xs) ≡ some (a ∷ bs) = rw (s, t, all_items) refl in
        subst (ReadsAll R (x ∷ xs)) (some-eq (a ∷ bs) rs (sym whole ∙ e))
          (d.0 x a s, all_items-ReadsAll f R xs bs d t)
  ]
]

ReadsAll-all_items :
    {A : Type 0} (f : Bytes → Option A) (R : Bytes → A → Type 0) (xs : List Bytes) (rs : List A)
    → Decides f R
    → ReadsAll R xs rs
    → all_items f xs ≡ some rs
ReadsAll-all_items f R [] [] d h = refl
ReadsAll-all_items f R [] (a ∷ rs) d h = elim h [ ]
ReadsAll-all_items f R (x ∷ xs) [] d h = elim h [ ]
ReadsAll-all_items f R (x ∷ xs) (a ∷ rs) d (h, t) =
    rw (d.1 x a h, ReadsAll-all_items f R xs rs d t, all_items) refl

reference-Judged :
    {A : Type 0} (size : ℕ) (f : Bytes → Option A) (R : Bytes → A → Type 0)
    (result : List A → Bytes) (data_bytes : Bytes)
    → Decides f R
    → Judged size R result data_bytes (reference size f result data_bytes)
reference-Judged size f R result data_bytes d = elim (Bool-cases (length data_bytes % size == 0)) [
  | inr e ↦ rw (e, reference) (bad_length (ground (arith, e)))
  | inl e ↦
      let whole : length data_bytes % size ≡ 0 = ground (arith, e) in
      elim (Option-cases (all_items f (items_of size data_bytes))) [
        | inl n ↦
            rw (e, n, reference)
              (malformed whole (λ items h.
                not_none items
                  (sym n ∙ ReadsAll-all_items f R (items_of size data_bytes) items d h)))
        | inr (items, s) ↦
            rw (e, s, reference)
              (fine items whole (all_items-ReadsAll f R (items_of size data_bytes) items d s))
      ]
]

module _ {Fp P Affine : Type 0} (blst : Blst Fp P Affine)
    (point_size fp_point_size compress_size : ℕ) (read_fp : Bytes → Option Fp) where
  abbrev pub serialized_sum : List P → Bytes
  serialized_sum points =
      blst.affine_serialize (blst.to_affine (foldl blst.add_or_double blst.identity points))

  abbrev pub Verdicts : Bytes → ℕ → Type 0
  Verdicts data_bytes version =
      Judged (bool_size + point_size) (IsSummand blst version) serialized_sum data_bytes
        (p_sum blst point_size fp_point_size compress_size read_fp data_bytes version)
      × Judged (point_size + scalar_size) (IsMultiple blst point_size version) serialized_sum
          data_bytes
          (g_multiexp blst point_size fp_point_size compress_size read_fp data_bytes version)
      × Judged compress_size (IsDecompressed blst) concat data_bytes
          (p_decompress blst point_size fp_point_size compress_size read_fp data_bytes)
      × Judged fp_point_size (IsMapped blst read_fp) concat data_bytes
          (map_fp_to_g blst point_size fp_point_size compress_size read_fp data_bytes)

  -- Each of the four functions of a group gives a host error exactly where the length is no multiple
  -- of the item size, a refusal exactly where the items do not all read, and else the serialized sum
  -- of what they read as, or all of it one after the other. An item of the sum reads as its point where
  -- its sign is 0 and as the negative where it is 1; one of the multiple as its point times its scalar,
  -- if the point is in the group; a point must be marked as uncompressed and be read by the crate,
  -- from version 1 on also one that the crate finds outside of the group; a compressed point must be
  -- marked as such; a field element reads as the point that it is mapped to.
  pub group_functions-Verdicts : (data_bytes : Bytes) (version : ℕ) → Verdicts data_bytes version
  unfolding serialize_p
  group_functions-Verdicts data_bytes version =
      let (sum, multiexp, packed, mapped_ones) =
        group_functions-AsReference blst point_size fp_point_size compress_size read_fp data_bytes
          version in
      (
        subst (Judged (bool_size + point_size) (IsSummand blst version) serialized_sum data_bytes)
            (sym sum)
            (reference-Judged _ _ _ _ _
              (sum_item-IsSummand blst point_size fp_point_size compress_size read_fp version)),
        subst
            (Judged (point_size + scalar_size) (IsMultiple blst point_size version) serialized_sum
              data_bytes)
            (sym multiexp)
            (reference-Judged _ _ _ _ _ (
              multiexp_item-IsMultiple blst point_size fp_point_size compress_size read_fp
                version)),
        subst (Judged compress_size (IsDecompressed blst) concat data_bytes) (sym packed) (
            reference-Judged _ _ _ _ _
              (decompress_item-IsDecompressed blst point_size fp_point_size compress_size read_fp)),
        subst (Judged fp_point_size (IsMapped blst read_fp) concat data_bytes) (sym mapped_ones) (
            reference-Judged _ _ _ _ _
              (map_item-IsMapped blst point_size fp_point_size compress_size read_fp)),
      )
