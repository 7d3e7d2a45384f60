-- ===== src/Bls/Reference.antt =====
-- bls_validate.rs: the loops with an early return against the sum of all items.
use near_mock.Base.{
  ℕ, ◌+◌, ◌/◌, ◌%◌, ◌≡◌, refl, sym, ap, ◌∙◌, true, false, Bool-cases, List, [], ◌∷◌, ◌++◌, Option,
  none, some, Bytes, length, ◌==◌, Option-cases, inl, inr,
}
use near_mock.Base.{ℕ_eq}
use near_mock.Bls.{
  Outcome, host_error, refused, accepted, Blst, bool_size, scalar_size, chunks_exact, with_items,
  serialize_p, sum_item, multiexp_item, accumulate, p_sum, g_multiexp, decompress_item, map_item,
  collect, p_decompress, map_fp_to_g,
}

-- All items read, or nothing.
abbrev pub all_items {ℓ} : {A : Type ℓ} → (Bytes → Option A) → List Bytes → Option (List A)
all_items item [] = some []
all_items item (x ∷ xs) = elim (item x) [
  | none ↦ none
  | some a ↦ elim (all_items item xs) [ none ↦ none | some bs ↦ some (a ∷ bs) ]
]

abbrev pub foldl {ℓ} : {P : Type ℓ} → (P → P → P) → P → List P → P
foldl f acc [] = acc
foldl f acc (x ∷ xs) = foldl f (f acc x) xs

abbrev pub concat : List Bytes → Bytes
concat [] = []
concat (x ∷ xs) = x ++ concat xs

-- The data is cut into items and all of them are read; the result is computed from all of them at once.
abbrev pub reference {ℓ} :
    {A : Type ℓ} → ℕ → (Bytes → Option A) → (List A → Bytes) → Bytes → Outcome Bytes
reference item_size item result data_bytes = elim (length data_bytes % item_size == 0) [
  | false ↦ host_error (length data_bytes) item_size
  | true ↦
      elim (all_items item (chunks_exact (length data_bytes / item_size) item_size data_bytes)) [
        | none ↦ refused
        | some items ↦ accepted (result items)
      ]
]

abbrev of_items {ℓ} : {A : Type ℓ} → Option (List A) → (List A → Bytes) → Outcome Bytes
of_items none f = refused
of_items (some items) f = accepted (f items)

of_items-cons {ℓ} :
    {A : Type ℓ} (item : Bytes → Option A) (x : Bytes) (xs : List Bytes) (a : A)
    (f : List A → Bytes)
    → item x ≡ some a
    → of_items (all_items item (x ∷ xs)) f ≡ of_items (all_items item xs) (λ bs. f (a ∷ bs))
of_items-cons item x xs a f e = elim (Option-cases (all_items item xs)) [
  | inl n ↦ rw (e, n, all_items) refl
  | inr (bs, s) ↦ rw (e, s, all_items) refl
]

of_items_ext {ℓ} :
    {A : Type ℓ} {f g : List A → Bytes} (o : Option (List A))
    → ((items : List A) → f items ≡ g items)
    → of_items o f ≡ of_items o g
of_items_ext none h = refl
of_items_ext (some items) h = ap accepted (h items)

append_assoc : (xs ys zs : Bytes) → (xs ++ ys) ++ zs ≡ xs ++ (ys ++ zs)
append_assoc [] ys zs = refl
append_assoc (x ∷ xs) ys zs = ap (λ r. x ∷ r) (append_assoc xs ys zs)

append_nil : (xs : Bytes) → xs ++ [] ≡ xs
append_nil [] = refl
append_nil (x ∷ xs) = ap (λ r. x ∷ r) (append_nil xs)

module _ {Fp P Affine : Type 0} (blst : Blst Fp P Affine)
    (point_size fp_point_size compress_size : ℕ) (read_fp : Bytes → Option Fp) where
  accumulate-of_items :
      (item : Bytes → Option P) (acc : P) (xs : List Bytes)
      → accumulate blst point_size fp_point_size compress_size read_fp item acc xs
        ≡ of_items (all_items item xs) (λ ps.
          serialize_p blst point_size fp_point_size compress_size read_fp
            (foldl blst.add_or_double acc ps))
  unfolding accumulate
  accumulate-of_items item acc [] = refl
  accumulate-of_items item acc (x ∷ xs) = elim (Option-cases (item x)) [
    | inl n ↦ rw (n, accumulate, all_items) refl
    | inr (pk, s) ↦
        rw (of_items-cons item x xs pk _ s, s, accumulate)
          (accumulate-of_items item (blst.add_or_double acc pk) xs)
  ]

  collect-of_items :
      (item : Bytes → Option Bytes) (res : Bytes) (xs : List Bytes)
      → collect blst point_size fp_point_size compress_size read_fp item res xs
        ≡ of_items (all_items item xs) (λ outs. res ++ concat outs)
  unfolding collect
  collect-of_items item res [] = ap accepted (sym (append_nil res))
  collect-of_items item res (x ∷ xs) = elim (Option-cases (item x)) [
    | inl n ↦ rw (n, collect, all_items) refl
    | inr (out, s) ↦
        rw (of_items-cons item x xs out (λ outs. res ++ concat outs) s, s, collect)
          (collect-of_items item (res ++ out) xs
            ∙ of_items_ext (all_items item xs) (λ outs. append_assoc res out (concat outs)))
  ]

with_items-reference {ℓ} :
    {A : Type ℓ} (data_bytes : Bytes) (item_size : ℕ) (item : Bytes → Option A) (f : List A → Bytes)
    (loop : List Bytes → Outcome Bytes)
    → ((xs : List Bytes) → loop xs ≡ of_items (all_items item xs) f)
    → with_items data_bytes item_size loop ≡ reference item_size item f data_bytes
unfolding with_items
with_items-reference {A = A} data_bytes item_size item f loop h =
    elim (Bool-cases (length data_bytes % item_size == 0)) [
      | inr e ↦ rw (e, with_items, reference) refl
      | inl e ↦
          rw (e, with_items, reference)
            (h (chunks_exact (length data_bytes / item_size) item_size data_bytes)
              ∙ opened
                  (all_items item
                    (chunks_exact (length data_bytes / item_size) item_size data_bytes))
                  f)
    ]
  where
    opened :
        (o : Option (List A)) (f : List A → Bytes)
        → of_items o f ≡ elim o [ none ↦ refused | some items ↦ accepted (f items) ]
    opened none f = refl
    opened (some items) f = refl

module _ {Fp P Affine : Type 0} (blst : Blst Fp P Affine)
    (point_size fp_point_size compress_size : ℕ) (read_fp : Bytes → Option Fp) where
  -- Each function gives what its reference gives.
  abbrev pub AsReference : Bytes → ℕ → Type 0
  AsReference data_bytes version =
      let serialize = serialize_p blst point_size fp_point_size compress_size read_fp in
      (p_sum blst point_size fp_point_size compress_size read_fp data_bytes version
        ≡ reference (bool_size + point_size)
            (sum_item blst point_size fp_point_size compress_size read_fp version)
            (λ ps. serialize (foldl blst.add_or_double blst.identity ps)) data_bytes)
      × (g_multiexp blst point_size fp_point_size compress_size read_fp data_bytes version
          ≡ reference (point_size + scalar_size)
              (multiexp_item blst point_size fp_point_size compress_size read_fp version)
              (λ ps. serialize (foldl blst.add_or_double blst.identity ps)) data_bytes)
      × (p_decompress blst point_size fp_point_size compress_size read_fp data_bytes
          ≡ reference compress_size
              (decompress_item blst point_size fp_point_size compress_size read_fp) concat
              data_bytes)
      × (map_fp_to_g blst point_size fp_point_size compress_size read_fp data_bytes
          ≡ reference fp_point_size (map_item blst point_size fp_point_size compress_size read_fp)
              concat data_bytes)

  -- Each of the four functions of a group, which leave their loop at the first bad item, gives what its
  -- reference gives: a host error exactly where the length is no multiple of the item size, a refusal
  -- where any item is malformed, and else the sum of the signed points, the sum of the multiples, or
  -- the serialized points one after the other.
  pub group_functions-AsReference :
      (data_bytes : Bytes) (version : ℕ) → AsReference data_bytes version
  unfolding p_sum g_multiexp p_decompress map_fp_to_g
  group_functions-AsReference data_bytes version = (
    with_items-reference data_bytes (bool_size + point_size) _ _ _
        (accumulate-of_items blst point_size fp_point_size compress_size read_fp _ blst.identity),
    with_items-reference data_bytes (point_size + scalar_size) _ _ _
        (accumulate-of_items blst point_size fp_point_size compress_size read_fp _ blst.identity),
    with_items-reference data_bytes compress_size _ _ _
        (collect-of_items blst point_size fp_point_size compress_size read_fp _ []),
    with_items-reference data_bytes fp_point_size _ _ _
        (collect-of_items blst point_size fp_point_size compress_size read_fp _ []),
  )
