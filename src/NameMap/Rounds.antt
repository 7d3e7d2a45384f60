-- ===== src/NameMap/Rounds.antt =====
-- name_map.rs: the loops over sections and subsections end within as many rounds as there are bytes.
use near_mock.Base.{
  ℕ, zero, suc, ◌+◌, ◌-◌, ◌*◌, ◌%◌, ◌^◌, ◌<◌, ◌≤◌, ◌≡◌, refl, ap, Bool, true, false, [], ◌∷◌,
  Option, none, some, Bytes, arith, length, get_elem?, ltb, min, ◌==◌, Bool-cases, Option-cases,
  inl, inr, take, drop,
}
use near_mock.Base.{ℕ_eq}
use near_mock.NameMap.{leb_from, read_leb_u32, sections_from, subsections}

leb_from-advances :
    (rounds : ℕ) (d : Bytes) (p shift result n q : ℕ)
    → leb_from rounds d p shift result ≡ some (n, q)
    → p < q
unfolding leb_from
leb_from-advances zero d p shift result n q e = cc
leb_from-advances (suc rounds) d p shift result n q e =
    go (get_elem? d p) (λ r k. leb_from-advances rounds d (p + 1) (shift + 7) r n q k) e
  where
    on_byte :
        (r : ℕ) (last : Bool)
        → (leb_from rounds d (p + 1) (shift + 7) r ≡ some (n, q) → p + 1 < q)
        → (elim last [
          | true ↦ some (r % 2 ^ 32, p + 1)
          | false ↦ leb_from rounds d (p + 1) (shift + 7) r
        ])
          ≡ some (n, q)
        → p < q
    on_byte r true k e = ground (arith, e)
    on_byte r false k e = omega (arith, k e)

    go :
        (o : Option ℕ)
        → ((r : ℕ) → leb_from rounds d (p + 1) (shift + 7) r ≡ some (n, q) → p + 1 < q)
        → (elim o [
          | none ↦ none
          | some b ↦ elim (ltb b 128) [
            | true ↦ some ((result + b % 128 * 2 ^ shift) % 2 ^ 32, p + 1)
            | false ↦ leb_from rounds d (p + 1) (shift + 7) (result + b % 128 * 2 ^ shift)
          ]
        ])
          ≡ some (n, q)
        → p < q
    go none k e = cc
    go (some b) k e = on_byte (result + b % 128 * 2 ^ shift) (ltb b 128) (k _) e

get-outside : (d : Bytes) (p : ℕ) → length d ≤ p → get_elem? d p ≡ none
get-outside [] p h = refl
get-outside (x ∷ d) zero h = absurd (omega (arith, h))
get-outside (x ∷ d) (suc p) h = get-outside d p (omega (arith, h))

-- The place after a block lies further on.
advances :
    (d : Bytes) (p size np : ℕ)
    → p < length d
    → read_leb_u32 d (p + 1) ≡ some (size, np)
    → p < min (np + size) (length d)
unfolding read_leb_u32
advances d p size np inside e = omega (arith, inside, leb_from-advances 6 d (p + 1) 0 0 size np e)

-- With as many rounds as there are bytes left, one more changes nothing.
pub sections_from_enough :
    (rounds : ℕ) (d : Bytes) (p : ℕ)
    → length d ≤ p + rounds
    → sections_from (suc rounds) d p ≡ sections_from rounds d p
unfolding sections_from
sections_from_enough zero d p h = rw (get-outside d p (omega (arith, h)), sections_from) refl
sections_from_enough (suc rounds) d p h = elim (Bool-cases (ltb p (length d))) [
  | inr out ↦ rw (get-outside d p (ground (arith, out)), sections_from) refl
  | inl inside ↦ elim (Option-cases (get_elem? d p)) [
    | inl e ↦ rw (e, sections_from) refl
    | inr (id, e) ↦ elim (Option-cases (read_leb_u32 d (p + 1))) [
      | inl k ↦ rw (e, k, sections_from) refl
      | inr ((size, np), k) ↦
          let later : p < min (np + size) (length d) =
            advances d p size np (ground (arith, inside)) k in
          rw (e, k, sections_from)
            (ap (λ r. (id, take (min (np + size) (length d) - np) (drop np d)) ∷ r)
              (sections_from_enough rounds d (min (np + size) (length d))
                (omega (arith, later, h))))
    ]
  ]
]

pub subsections_enough :
    (rounds : ℕ) (d : Bytes) (p : ℕ)
    → length d ≤ p + rounds
    → subsections (suc rounds) d p ≡ subsections rounds d p
unfolding subsections
subsections_enough zero d p h = rw (get-outside d p (omega (arith, h)), subsections) refl
subsections_enough (suc rounds) d p h = elim (Bool-cases (ltb p (length d))) [
  | inr out ↦ rw (get-outside d p (ground (arith, out)), subsections) refl
  | inl inside ↦ elim (Option-cases (get_elem? d p)) [
    | inl e ↦ rw (e, subsections) refl
    | inr (id, e) ↦ elim (Option-cases (read_leb_u32 d (p + 1))) [
      | inl k ↦ rw (e, k, subsections) refl
      | inr ((size, np), k) ↦ elim (Bool-cases (id == 1)) [
        | inl q ↦ rw (e, k, q, subsections) refl
        | inr q ↦
            let later : p < min (np + size) (length d) =
              advances d p size np (ground (arith, inside)) k in
            rw (e, k, q, subsections)
              (subsections_enough rounds d (min (np + size) (length d)) (omega (arith, later, h)))
      ]
    ]
  ]
]
