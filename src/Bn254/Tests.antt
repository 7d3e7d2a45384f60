-- ===== src/Bn254/Tests.antt =====
-- bn254.rs on a group of two points.
use near_mock.Base.{zero, suc, ◌≡◌, refl, Bool, true, false, ◌&&◌, Option, none, some, arith}
use near_mock.Bn254.{Bn, U256, ok, decode_g1, encode_g1}
use near_mock.Bn254.Octets.{IsFaithful, IsU256, decode_g1-encode_g1}

abbrev toy_number : U256 → Option Bool
toy_number (zero, m) = some false
toy_number (suc n, m) = some true

abbrev toy_into : Bool → U256
toy_into false = (0, 0)
toy_into true = (1, 0)

abbrev toy_point : Bool → Bool → Option Bool
toy_point x false = none
toy_point x true = some true

abbrev toy_coordinates : Bool → Option (Bool × Bool)
toy_coordinates false = none
toy_coordinates true = some (true, true)

abbrev is_false : Bool → Bool
is_false true = false
is_false false = true

-- Numbers are 0 and 1; the points are infinity and one other.
abbrev pub toy_bn : Bn
toy_bn = record {
  Fq = Bool;
  Fq2 = Bool;
  Fr = Unit;
  G1 = Bool;
  G2 = Unit;
  from_u256 = toy_number;
  into_u256 = toy_into;
  fq_zero = false;
  fq_is_zero = is_false;
  fq2_new = λ a b. a;
  fq2_is_zero = is_false;
  fr_new = λ v. some tt;
  g1_zero = false;
  affine_g1 = toy_point;
  from_jacobian = toy_coordinates;
  add = λ p q. q;
  sub = λ p q. q;
  multiexp = λ es. false;
  g2_zero = tt;
  affine_g2 = λ x y. some tt;
  pairing_is_one = λ es. true;
}

toy_halves : (x : Bool) → IsU256 (toy_into x)
toy_halves false = (omega arith, omega arith)
toy_halves true = (omega arith, omega arith)

toy_reads : (x : Bool) → toy_number (toy_into x) ≡ some x
toy_reads false = refl
toy_reads true = refl

toy_finite :
    (v x y : Bool)
    → toy_coordinates v ≡ some (x, y)
    → (toy_point x y ≡ some v) × ((is_false x && is_false y) ≡ false)
toy_finite false x y e = cc
toy_finite true x y e = ground (arith, e)

toy_infinite : (v : Bool) → toy_coordinates v ≡ none → v ≡ false
toy_infinite false e = refl
toy_infinite true e = cc

toy_bn-IsFaithful : IsFaithful toy_bn
toy_bn-IsFaithful = record {
  halves = toy_halves;
  number = toy_reads;
  zero_number = refl;
  finite = toy_finite;
  infinite = toy_infinite;
}

decode_g1-encode_g1_example : decode_g1 toy_bn (encode_g1 toy_bn true) ≡ ok true
decode_g1-encode_g1_example = decode_g1-encode_g1 toy_bn toy_bn-IsFaithful true
