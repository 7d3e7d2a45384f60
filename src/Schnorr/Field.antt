-- ===== src/Schnorr/Field.antt =====
-- schnorr.rs, the field of secp256k1: the constants, `cond_sub_p`, `fe_add`, `fe_sub`.
pub mod Laws
use near_mock.Base.{
  ℕ, ◌+◌, ◌-◌, ◌*◌, ◌^◌, ◌≡◌, refl, Bool, true, false, ◌&&◌, List, [], ◌∷◌, ltb, ◌==◌,
  if◌then◌else◌,
}
use near_mock.Base.{ℕ_eq}
use near_mock.Schnorr.Limbs.{add256, sub256, value}

-- `P`, and `DELTA` with P = 2^256 - DELTA.
abbrev pub p_limbs : List ℕ
p_limbs = 0xFFFFFFFEFFFFFC2F ∷ 0xFFFFFFFFFFFFFFFF ∷ 0xFFFFFFFFFFFFFFFF ∷ 0xFFFFFFFFFFFFFFFF ∷ []

abbrev pub delta : ℕ
delta = 0x1000003D1

-- `N`, the order of the group.
abbrev pub n_limbs : List ℕ
n_limbs = 0xBFD25E8CD0364141 ∷ 0xBAAEDCE6AF48A03B ∷ 0xFFFFFFFFFFFFFFFE ∷ 0xFFFFFFFFFFFFFFFF ∷ []

abbrev pub p : ℕ
p = 2 ^ 256 - 2 ^ 32 - 977

abbrev pub delta_limbs : List ℕ
delta_limbs = delta ∷ 0 ∷ 0 ∷ 0 ∷ []

unfoldable pub cond_sub : List ℕ → List ℕ → List ℕ
cond_sub modulus a = let (r, b) = sub256 a modulus in if b == 0 then r else a

unfoldable pub cond_sub_p : List ℕ → List ℕ
unfolding cond_sub
cond_sub_p a = cond_sub p_limbs a

unfoldable pub fe_mod_n : List ℕ → List ℕ
unfolding cond_sub
fe_mod_n a = cond_sub n_limbs a

-- How both `fe_add` and `fe_mul` end: a carry out of the top is worth DELTA.
unfoldable pub fold_carry : List ℕ × ℕ → List ℕ
fold_carry (s, c) = if ltb 0 c then cond_sub_p (add256 s delta_limbs).0 else cond_sub_p s

unfoldable pub fe_add : List ℕ → List ℕ → List ℕ
unfolding fold_carry
fe_add a b = fold_carry (add256 a b)

unfoldable pub fe_sub : List ℕ → List ℕ → List ℕ
fe_sub a b =
    let (d, borrow) = sub256 a b in
    let (s, again) = sub256 d delta_limbs in
    if ltb 0 borrow then cond_sub_p (if ltb 0 again then (add256 s p_limbs).0 else s) else d

value-p_limbs : value p_limbs ≡ p
value-p_limbs = refl
