-- ===== src/Bls/Items.antt =====
-- bls_validate.rs: the readers of single items against what the crate says of them.
use mathlib.Core.Bool.{false≢true}
use near_mock.Base.{
  subst, ℕ, ◌≡◌, inl, inr, refl, sym, ap, ◌∙◌, true, false, Bool-cases, [], ◌∷◌, Option, none, some,
  Bytes, arith, take, drop, ◌==◌, Option-cases,
}
use near_mock.Base.{ℕ_eq}
use near_mock.Bls.{
  Blst, BlstError, success, not_in_group, other, not_in_group_fix_version, bool_size, high_bit,
  head_or_zero, is_accepted, parse_p, signed, sum_item, multiexp_item, decompress_item, map_item,
  serialize_p,
}
use near_mock.Bls.Reads.{
  IsUncompressed, IsCompressed, Passes, good, outside, IsPoint, IsSummand, plus, minus, IsMultiple,
  multiple, IsDecompressed, IsMapped, mapped,
}

-- A reader gives what the relation says, and all of it.
abbrev pub Decides : {A : Type 0} → (Bytes → Option A) → (Bytes → A → Type 0) → Type 0
Decides {A} f R =
    ((x : Bytes) (a : A) → f x ≡ some a → R x a) × ((x : Bytes) (a : A) → R x a → f x ≡ some a)

pub not_none : {A : Type 0} (a : A) → ¬ (none ≡ some a)
not_none a e = cc

pub some-eq : {A : Type 0} (a b : A) → some a ≡ some b → a ≡ b
some-eq a b e = cc

is_accepted-Passes : (version : ℕ) (v : BlstError) → is_accepted version v ≡ true → Passes version v
is_accepted-Passes version success e = good
is_accepted-Passes version not_in_group e = outside (ground (arith, e))
is_accepted-Passes version other e = absurd (false≢true e)

Passes-is_accepted : (version : ℕ) (v : BlstError) → Passes version v → is_accepted version v ≡ true
Passes-is_accepted version success h = refl
Passes-is_accepted version not_in_group (outside h) = ground (arith, h)
Passes-is_accepted version other h = elim h [ ]

high_bit-IsUncompressed : (bytes : Bytes) → high_bit bytes ≡ false → IsUncompressed bytes
high_bit-IsUncompressed [] e = tt
high_bit-IsUncompressed (b ∷ bs) e = ground (arith, e)

IsUncompressed-high_bit : (bytes : Bytes) → IsUncompressed bytes → high_bit bytes ≡ false
IsUncompressed-high_bit [] h = refl
IsUncompressed-high_bit (b ∷ bs) h = ground (arith, h)

high_bit-IsCompressed : (bytes : Bytes) → high_bit bytes ≡ true → IsCompressed bytes
high_bit-IsCompressed [] e = absurd (false≢true e)
high_bit-IsCompressed (b ∷ bs) e = ground (arith, e)

IsCompressed-high_bit : (bytes : Bytes) → IsCompressed bytes → high_bit bytes ≡ true
IsCompressed-high_bit [] h = elim h [ ]
IsCompressed-high_bit (b ∷ bs) h = ground (arith, h)

module _ {Fp P Affine : Type 0} (blst : Blst Fp P Affine)
    (point_size fp_point_size compress_size : ℕ) (read_fp : Bytes → Option Fp) where
  abbrev parse : Bytes → ℕ → Option P
  parse = parse_p blst point_size fp_point_size compress_size read_fp

  parse_p-IsPoint :
      (version : ℕ) (bytes : Bytes) (q : P)
      → parse bytes version ≡ some q
      → IsPoint blst version bytes q
  unfolding parse_p
  parse_p-IsPoint version bytes q e = elim (Bool-cases (high_bit bytes)) [
    | inl high ↦ absurd (not_none q (sym (rw (high, parse_p) refl) ∙ e))
    | inr low ↦ elim (Bool-cases (is_accepted version (blst.deserialize bytes).0)) [
      | inr bad ↦ absurd (not_none q (sym (rw (low, bad, parse_p) refl) ∙ e))
      | inl fit ↦
          let read : parse bytes version ≡ some (blst.from_affine (blst.deserialize bytes).1) =
            rw (low, fit, parse_p) refl in
          record {
            plain = high_bit-IsUncompressed bytes low;
            passes = is_accepted-Passes version (blst.deserialize bytes).0 fit;
            same = some-eq _ _ (sym e ∙ read);
          }
    ]
  ]

  IsPoint-parse_p :
      (version : ℕ) (bytes : Bytes) (q : P)
      → IsPoint blst version bytes q
      → parse bytes version ≡ some q
  unfolding parse_p
  IsPoint-parse_p version bytes q h =
      rw
        (
          IsUncompressed-high_bit bytes h.plain,
          Passes-is_accepted version (blst.deserialize bytes).0 h.passes,
          parse_p,
        )
        (ap some (sym h.same))

  pub sum_item-IsSummand :
      (version : ℕ)
      → Decides
          (sum_item blst point_size fp_point_size compress_size read_fp version)
          (IsSummand blst version)
  unfolding sum_item signed
  sum_item-IsSummand version = (forth, back)
    where
      forth :
          (x : Bytes) (a : P)
          → sum_item blst point_size fp_point_size compress_size read_fp version x ≡ some a
          → IsSummand blst version x a
      forth x a e = elim (Option-cases (parse (drop bool_size x) version)) [
        | inl n ↦ absurd (not_none a (sym (rw (n, sum_item) refl) ∙ e))
        | inr (q, s) ↦
            let point = parse_p-IsPoint version (drop bool_size x) q s in
            elim (Bool-cases (head_or_zero x == 1)) [
              | inl one ↦
                  subst (IsSummand blst version x)
                    (some-eq _ _ (sym (rw (s, one, sum_item, signed) refl) ∙ e))
                    (minus q (ground (arith, one)) point)
              | inr not_one ↦ elim (Bool-cases (head_or_zero x == 0)) [
                | inl nought ↦
                    subst (IsSummand blst version x)
                      (some-eq _ _ (sym (rw (s, not_one, nought, sum_item, signed) refl) ∙ e))
                      (plus q (ground (arith, nought)) point)
                | inr not_nought ↦
                    absurd
                      (not_none a (sym (rw (s, not_one, not_nought, sum_item, signed) refl) ∙ e))
              ]
            ]
      ]

      back :
          (x : Bytes) (a : P)
          → IsSummand blst version x a
          → sum_item blst point_size fp_point_size compress_size read_fp version x ≡ some a
      back x a (plus q sign point) =
          rw (IsPoint-parse_p version (drop bool_size x) q point, sign, sum_item, signed) refl
      back x a (minus q sign point) =
          rw (IsPoint-parse_p version (drop bool_size x) q point, sign, sum_item, signed) refl

  pub multiexp_item-IsMultiple :
      (version : ℕ)
      → Decides
          (multiexp_item blst point_size fp_point_size compress_size read_fp version)
          (IsMultiple blst point_size version)
  unfolding multiexp_item
  multiexp_item-IsMultiple version = (forth, back)
    where
      forth :
          (x : Bytes) (a : P)
          → multiexp_item blst point_size fp_point_size compress_size read_fp version x ≡ some a
          → IsMultiple blst point_size version x a
      forth x a e = elim (Option-cases (parse (take point_size x) version)) [
        | inl n ↦ absurd (not_none a (sym (rw (n, multiexp_item) refl) ∙ e))
        | inr (q, s) ↦ elim (Bool-cases (blst.in_g q)) [
          | inl inside ↦
              subst (IsMultiple blst point_size version x)
                (some-eq _ _ (sym (rw (s, inside, multiexp_item) refl) ∙ e))
                (multiple q (parse_p-IsPoint version (take point_size x) q s) inside)
          | inr out ↦ absurd (not_none a (sym (rw (s, out, multiexp_item) refl) ∙ e))
        ]
      ]

      back :
          (x : Bytes) (a : P)
          → IsMultiple blst point_size version x a
          → multiexp_item blst point_size fp_point_size compress_size read_fp version x ≡ some a
      back x a (multiple q point inside) =
          rw (IsPoint-parse_p version (take point_size x) q point, inside, multiexp_item) refl

  pub decompress_item-IsDecompressed :
      Decides
        (decompress_item blst point_size fp_point_size compress_size read_fp)
        (IsDecompressed blst)
  unfolding decompress_item
  decompress_item-IsDecompressed = (forth, back)
    where
      forth :
          (x out : Bytes)
          → decompress_item blst point_size fp_point_size compress_size read_fp x ≡ some out
          → IsDecompressed blst x out
      forth x out e = elim (Bool-cases (high_bit x)) [
        | inr low ↦ absurd (not_none out (sym (rw (low, decompress_item) refl) ∙ e))
        | inl high ↦
            elim (Bool-cases (is_accepted not_in_group_fix_version (blst.uncompress x).0)) [
              | inr bad ↦ absurd (not_none out (sym (rw (high, bad, decompress_item) refl) ∙ e))
              | inl fit ↦ record {
                packed = high_bit-IsCompressed x high;
                passes = is_accepted-Passes not_in_group_fix_version (blst.uncompress x).0 fit;
                same = some-eq _ _ (sym e ∙ rw (high, fit, decompress_item) refl);
              }
            ]
      ]

      back :
          (x out : Bytes)
          → IsDecompressed blst x out
          → decompress_item blst point_size fp_point_size compress_size read_fp x ≡ some out
      back x out h =
          rw
            (
              IsCompressed-high_bit x h.packed,
              Passes-is_accepted not_in_group_fix_version (blst.uncompress x).0 h.passes,
              decompress_item,
            )
            (ap some (sym h.same))

  pub map_item-IsMapped :
      Decides (map_item blst point_size fp_point_size compress_size read_fp) (IsMapped blst read_fp)
  unfolding map_item serialize_p
  map_item-IsMapped = (forth, back)
    where
      forth :
          (x out : Bytes)
          → map_item blst point_size fp_point_size compress_size read_fp x ≡ some out
          → IsMapped blst read_fp x out
      forth x out e = elim (Option-cases (read_fp x)) [
        | inl n ↦ absurd (not_none out (sym (rw (n, map_item) refl) ∙ e))
        | inr (fp, s) ↦
            subst (IsMapped blst read_fp x) (some-eq _ _ (sym (rw (s, map_item) refl) ∙ e))
              (mapped fp s)
      ]

      back :
          (x out : Bytes)
          → IsMapped blst read_fp x out
          → map_item blst point_size fp_point_size compress_size read_fp x ≡ some out
      back x out (mapped fp s) = rw (s, map_item) refl
