-- ===== src/Schnorr/Power/Laws.antt =====
-- schnorr.rs, `fe_inv` and `fe_sqrt` compute the powers that Fermat's little theorem asks for.
use near_mock.Base.{
  ℕ, zero, suc, ◌+◌, ◌-◌, ◌*◌, ◌/◌, ◌%◌, ◌^◌, ◌≡◌, refl, List, [], ◌∷◌, arith, ltb, if◌then◌else◌,
  inl, inr, Bool-cases, ap, ap₂, sym, ◌∙◌, subst,
}
use native.Mathlib.Nat.{add-zero, pow-zero}
use near_mock.Base.Modular.{mod-mul, mod-mul-mod, pow-add, pow-succ}
use near_mock.Schnorr.Limbs.{word, value, IsLimbs}
use near_mock.Schnorr.Field.{p}
use near_mock.Schnorr.Field.Laws.{IsFe}
use near_mock.Schnorr.Product.{fe_mul, fe_sqr}
use near_mock.Schnorr.Product.Laws.{fe_mul-value}
use near_mock.Schnorr.Power.{
  power_step, power_bits, power_words, one, inv_exp, sqrt_exp, fe_inv, fe_sqrt,
}

-- The exponent that the inner loop reads off `bits`, and the one that both loops read.
exponent_bits : ℕ → ℕ → ℕ → ℕ
exponent_bits zero bits e = e
exponent_bits (suc rounds) bits e =
    exponent_bits rounds (bits * 2 % word) (e + e + (if ltb 0 (bits / 2 ^ 63) then 1 else 0))

exponent_words : List ℕ → ℕ → ℕ
unfolding exponent_bits
exponent_words [] e = e
exponent_words (w ∷ ws) e = exponent_words ws (exponent_bits 64 w e)

-- `r` is the e-th power of `a` so far.
abbrev IsPower : List ℕ → ℕ → List ℕ → Type 0
IsPower a e r = IsFe r × (value r ≡ value a ^ e % p)

fe_sqr-IsPower : (a : List ℕ) (e : ℕ) (r : List ℕ) → IsPower a e r → IsPower a (e + e) (fe_sqr r)
unfolding fe_sqr
fe_sqr-IsPower a e r (fe, v) =
    let (fe', v') = fe_mul-value r r fe.0 fe.0 in
    (
      fe',
      v'
          ∙ ap₂ (λ x y. x * y % p) v v
          ∙ mod-mul-mod (value a ^ e) (value a ^ e) p
          ∙ ap (λ n. n % p) (sym (pow-add (value a) e e)),
    )

fe_mul-IsPower :
    (a : List ℕ) (e : ℕ) (r : List ℕ) → IsLimbs 4 a → IsPower a e r → IsPower a (e + 1) (fe_mul r a)
fe_mul-IsPower a e r ha (fe, v) =
    let (fe', v') = fe_mul-value r a fe.0 ha in
    (
      fe',
      v'
          ∙ ap (λ x. x * value a % p) v
          ∙ mod-mul (value a ^ e) (value a) p
          ∙ ap (λ n. n % p) (sym (pow-succ (value a) e)),
    )

power_step-IsPower :
    (a : List ℕ) (e bits : ℕ) (r : List ℕ)
    → IsLimbs 4 a
    → IsPower a e r
    → IsPower a (e + e + (if ltb 0 (bits / 2 ^ 63) then 1 else 0)) (power_step a bits r)
unfolding power_step
power_step-IsPower a e bits r ha h = elim (Bool-cases (ltb 0 (bits / 2 ^ 63))) [
  | inl t ↦ rw (t, power_step) (fe_mul-IsPower a (e + e) (fe_sqr r) ha (fe_sqr-IsPower a e r h))
  | inr t ↦ rw (t, power_step, add-zero) (fe_sqr-IsPower a e r h)
]

power_bits-IsPower :
    (k : ℕ) (a : List ℕ) (e bits : ℕ) (r : List ℕ)
    → IsLimbs 4 a
    → IsPower a e r
    → IsPower a (exponent_bits k bits e) (power_bits k a bits r)
unfolding power_bits exponent_bits
power_bits-IsPower zero a e bits r ha h = h
power_bits-IsPower (suc k) a e bits r ha h =
    power_bits-IsPower k a _ (bits * 2 % word) (power_step a bits r) ha
      (power_step-IsPower a e bits r ha h)

power_words-IsPower :
    (ws a : List ℕ) (e : ℕ) (r : List ℕ)
    → IsLimbs 4 a
    → IsPower a e r
    → IsPower a (exponent_words ws e) (power_words ws a r)
unfolding power_words exponent_words
power_words-IsPower [] a e r ha h = h
power_words-IsPower (w ∷ ws) a e r ha h =
    power_words-IsPower ws a (exponent_bits 64 w e) (power_bits 64 a w r) ha
      (power_bits-IsPower 64 a e w r ha h)

one-IsPower : (a : List ℕ) → IsPower a 0 one
one-IsPower a = ((omega arith, omega arith), rw pow-zero refl)

inv_exp-exponent : exponent_words inv_exp 0 ≡ p - 2
unfolding exponent_words
inv_exp-exponent = refl

sqrt_exp-exponent : exponent_words sqrt_exp 0 ≡ (p + 1) / 4
unfolding exponent_words
sqrt_exp-exponent = refl

-- `fe_inv` is the power p - 2 modulo p, canonical, for every 256-bit number.
pub fe_inv-value :
    (a : List ℕ) → IsLimbs 4 a → IsFe (fe_inv a) × (value (fe_inv a) ≡ value a ^ (p - 2) % p)
unfolding fe_inv
fe_inv-value a ha =
    subst (λ e. IsPower a e (power_words inv_exp a one)) inv_exp-exponent
      (power_words-IsPower inv_exp a 0 one ha (one-IsPower a))

-- `fe_sqrt` is the power (p + 1) / 4 modulo p, canonical, for every 256-bit number.
pub fe_sqrt-value :
    (a : List ℕ)
    → IsLimbs 4 a
    → IsFe (fe_sqrt a) × (value (fe_sqrt a) ≡ value a ^ ((p + 1) / 4) % p)
unfolding fe_sqrt
fe_sqrt-value a ha =
    subst (λ e. IsPower a e (power_words sqrt_exp a one)) sqrt_exp-exponent
      (power_words-IsPower sqrt_exp a 0 one ha (one-IsPower a))
