-- ===== src/Bls/Tests.antt =====
-- bls_validate.rs on a group of one point, and on one of numbers.
use near_mock.Base.{ℕ, ◌+◌, ◌-◌, ◌*◌, ◌%◌, ◌==◌, ◌≡◌, refl, [], ◌∷◌, true, some}
use near_mock.Base.{ℕ_eq}
use near_mock.Bls.{host_error, refused, accepted, Blst, success, head_or_zero, p_sum}
use near_mock.Bls.Verdicts.{Verdicts, group_functions-Verdicts}
use near_mock.Bls.Pairing.{BlstAll, p1_sum, eval}

abbrev toy_group : Blst Unit Unit Unit
toy_group = record {
  identity = tt;
  deserialize = λ d. (success, tt);
  from_affine = λ a. tt;
  cneg = λ p. tt;
  add_or_double = λ p q. tt;
  to_affine = λ p. tt;
  affine_serialize = λ a. 64 ∷ [];
  in_g = λ p. true;
  mult = λ p s. tt;
  map_to_g = λ f. tt;
  uncompress = λ d. (success, tt);
}

abbrev pub toy_blst : BlstAll
toy_blst = record {
  Fp = Unit;
  Fp2 = Unit;
  P1 = Unit;
  P2 = Unit;
  A1 = Unit;
  A2 = Unit;
  F = Unit;
  fp = record { from_bendian = λ d. tt; to_bendian = λ f. []; pair = λ a b. tt };
  group1 = toy_group;
  group2 = toy_group;
  pairing = record {
    deserialize1 = λ d. (success, tt);
    in_g1 = λ a. true;
    deserialize2 = λ d. (success, tt);
    in_g2 = λ a. true;
    fp12_one = tt;
    mul = λ a b. tt;
    miller_loop = λ a b. tt;
    final_exp = λ a. tt;
    is_one = λ a. true;
  };
}

-- The empty sum is the identity, and a length that is no multiple of 97 is a host error.
sum_test :
    (eval toy_blst p1_sum [] ≡ accepted (64 ∷ []))
    × (eval toy_blst p1_sum (0 ∷ []) ≡ host_error 1 97)
unfolding eval
sum_test = (refl, refl)

-- The numbers modulo 256 as a group, of which the even ones are the subgroup.
abbrev numbers : Blst ℕ ℕ ℕ
numbers = record {
  identity = 0;
  deserialize = λ d. (success, head_or_zero d);
  from_affine = λ a. a;
  cneg = λ p. (256 - p) % 256;
  add_or_double = λ p q. (p + q) % 256;
  to_affine = λ p. p;
  affine_serialize = λ a. a ∷ [];
  in_g = λ p. p % 2 == 0;
  mult = λ p s. p * head_or_zero s % 256;
  map_to_g = λ f. f * 2 % 256;
  uncompress = λ d. (success, head_or_zero d - 128);
}

-- 5 - 3, and a sign of 2.
numbers_test :
    (p_sum numbers 1 1 1 (λ d. some 0) (0 ∷ 5 ∷ 1 ∷ 3 ∷ []) 1 ≡ accepted (2 ∷ []))
    × (p_sum numbers 1 1 1 (λ d. some 0) (2 ∷ 5 ∷ []) 1 ≡ refused)
unfolding p_sum
numbers_test = (refl, refl)

group_functions-Verdicts_example :
    Verdicts numbers 1 1 1 (λ d. some (head_or_zero d)) (0 ∷ 5 ∷ 1 ∷ 3 ∷ []) 1
group_functions-Verdicts_example =
    group_functions-Verdicts numbers 1 1 1 (λ d. some (head_or_zero d)) (0 ∷ 5 ∷ 1 ∷ 3 ∷ []) 1
