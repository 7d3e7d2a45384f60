-- ===== src/Schnorr/Field/Laws.antt =====
-- schnorr.rs, `cond_sub_p`, `fe_add`, `fe_sub`: arithmetic modulo p with one result for each residue.
use near_mock.Base.{
  ℕ, zero, suc, ◌+◌, ◌-◌, ◌*◌, ◌%◌, ◌≤◌, ◌<◌, ◌≡◌, List, arith, ltb, inl, inr, Bool-cases, ltb→lt,
  ltb→ge, lt→ltb, ◌⊎◌,
}
use near_mock.Base.{ℕ_eq}
use near_mock.Schnorr.Limbs.{
  add256, sub256, value, IsLimbs, capacity, weight-IsLimbs, value-lt, add_limbs-value,
  sub_limbs-value,
}
use near_mock.Schnorr.Field.{
  p_limbs, n_limbs, delta, p, delta_limbs, cond_sub, cond_sub_p, fold_carry, fe_mod_n, fe_add,
  fe_sub,
}

-- Addition of 256-bit numbers is exact, with a carry of 0 or 1.
pub add256-value :
    (a b : List ℕ)
    → IsLimbs 4 a
    → IsLimbs 4 b
    → IsLimbs 4 (add256 a b).0
      × ((add256 a b).1 ≤ 1)
      × (value (add256 a b).0 + capacity 4 * (add256 a b).1 ≡ value a + value b)
unfolding add256
add256-value a b ha hb =
    let (limbs, small, total) = add_limbs-value 4 a b 0 ha hb (omega arith) in
    (limbs, small, omega (arith, rw (weight-IsLimbs 4 a ha) at total))

-- Subtraction of 256-bit numbers is exact, with a borrow of 0 or 1.
pub sub256-value :
    (a b : List ℕ)
    → IsLimbs 4 a
    → IsLimbs 4 b
    → IsLimbs 4 (sub256 a b).0
      × ((sub256 a b).1 ≤ 1)
      × (value (sub256 a b).0 + value b ≡ value a + capacity 4 * (sub256 a b).1)
unfolding sub256
sub256-value a b ha hb =
    let (limbs, small, total) = sub_limbs-value 4 a b 0 ha hb (omega arith) in
    (limbs, small, omega (arith, rw (weight-IsLimbs 4 a ha) at total))

-- A canonical field element: four limbs, below p.
abbrev pub IsFe : List ℕ → Type 0
IsFe a = IsLimbs 4 a × (value a < p)

cond_sub-value :
    (m a : List ℕ)
    → IsLimbs 4 m
    → IsLimbs 4 a
    → IsLimbs 4 (cond_sub m a)
      × (((value a < value m) × (value (cond_sub m a) ≡ value a))
          ⊎ ((value m ≤ value a) × (value (cond_sub m a) + value m ≡ value a)))
unfolding cond_sub
cond_sub-value m a hm ha =
    ground
      (arith, sub256-value a m ha hm, value-lt 4 (sub256 a m).0, value-lt 4 a ha, value-lt 4 m hm)

-- One conditional subtraction reduces every 256-bit number modulo p.
pub cond_sub_p-value :
    (a : List ℕ) → IsLimbs 4 a → IsFe (cond_sub_p a) × (value (cond_sub_p a) ≡ value a % p)
unfolding cond_sub_p
cond_sub_p-value a ha =
    let (limbs, cases) = cond_sub-value p_limbs a (omega arith) ha in
    ((limbs, omega (arith, value-lt 4 a ha)), omega (arith, value-lt 4 a ha))

-- One conditional subtraction of the order of the group reduces a 256-bit number modulo the order.
pub fe_mod_n-value :
    (a : List ℕ)
    → IsLimbs 4 a
    → IsLimbs 4 (fe_mod_n a) × (value (fe_mod_n a) ≡ value a % value n_limbs)
unfolding fe_mod_n
fe_mod_n-value a ha =
    let (limbs, cases) = cond_sub-value n_limbs a (omega arith) ha in
    (limbs, omega (arith, value-lt 4 a ha))

-- Where the sum with DELTA cannot overflow again, the carry is folded in modulo p.
pub fold_carry-value :
    (s : List ℕ) (c : ℕ)
    → IsLimbs 4 s
    → c ≤ 1
    → value s + delta * c < capacity 4
    → IsFe (fold_carry (s, c)) × (value (fold_carry (s, c)) ≡ (value s + capacity 4 * c) % p)
unfolding fold_carry
fold_carry-value s zero hs hc fit = let (fe, total) = cond_sub_p-value s hs in (fe, omega arith)
fold_carry-value s (suc c) hs hc fit =
    let (wrapped, top, over) = add256-value s delta_limbs hs (omega arith) in
    let (fe, total) = cond_sub_p-value (add256 s delta_limbs).0 wrapped in
    rw (lt→ltb 0 (suc c) (omega arith), fold_carry) (fe, omega (arith, value-lt 4 _ wrapped))

-- Field addition of canonical elements is addition modulo p, and its result is canonical.
pub fe_add-value :
    (a b : List ℕ)
    → IsFe a
    → IsFe b
    → IsFe (fe_add a b) × (value (fe_add a b) ≡ (value a + value b) % p)
unfolding fe_add
fe_add-value a b ha hb =
    let (limbs, small, total) = add256-value a b ha.0 hb.0 in
    let (fe, sum) =
      fold_carry-value (add256 a b).0 (add256 a b).1 limbs small
        (omega (arith, value-lt 4 _ limbs)) in
    (fe, rw total at sum)

-- Field subtraction of canonical elements is subtraction modulo p, and its result is canonical.
pub fe_sub-value :
    (a b : List ℕ)
    → IsFe a
    → IsFe b
    → IsFe (fe_sub a b) × (value (fe_sub a b) ≡ (value a + p - value b) % p)
unfolding fe_sub
fe_sub-value a b ha hb =
    let (limbs, small, total) = sub256-value a b ha.0 hb.0 in
    let (less, once, under) = sub256-value (sub256 a b).0 delta_limbs limbs (omega arith) in
    elim (Bool-cases (ltb 0 (sub256 a b).1)) [
      | inl e ↦
          let none_left : (sub256 (sub256 a b).0 delta_limbs).1 ≡ 0 =
            omega (arith, ltb→lt 0 (sub256 a b).1 e, value-lt 4 _ limbs, value-lt 4 _ less) in
          rw (e, none_left, fe_sub)
            (
              (cond_sub_p-value _ less).0,
              omega (
                arith,
                (cond_sub_p-value _ less).1,
                ltb→lt 0 (sub256 a b).1 e,
                value-lt 4 _ less,
                value-lt 4 _ limbs,
              ),
            )
      | inr e ↦
          rw (e, fe_sub)
            (
              (limbs, omega (arith, ltb→ge 0 (sub256 a b).1 e)),
              omega (arith, ltb→ge 0 (sub256 a b).1 e),
            )
    ]
