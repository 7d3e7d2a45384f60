-- ===== src/Base/Modular.antt =====
-- Products, powers and residues on the native numbers.
use native.Mathlib.Nat.{
  div-add-mod, mul-add-mod_self_left, mul-one, add-zero, add-suc, mul_assoc, pow-zero, pow-suc,
  mul_comm,
}
use native.Mathlib.Numerals.{add-one}
use Prim.Native.Nat.{ℕ, zero, suc, ◌+◌, ◌*◌, ◌/◌, ◌%◌, ◌^◌}
use mathlib.Core.Path.{◌≡◌, sym, ◌∙◌, ap}
use native.Mathlib.Omega.{arith}

pub mod-mul : (a b m : ℕ) → a % m * b % m ≡ a * b % m
mod-mul a b m =
    sym (mul-add-mod_self_left m (a / m * b) (a % m * b))
    ∙ ap (λ n. n % m) (omega (arith, ap (λ (t : ℕ). t * b) (div-add-mod a m)))

pub mod-mul-mod : (a b m : ℕ) → (a % m) * (b % m) % m ≡ a * b % m
mod-mul-mod a b m =
    mod-mul a (b % m) m
    ∙ ap (λ n. n % m) (mul_comm a (b % m))
    ∙ mod-mul b a m
    ∙ ap (λ n. n % m) (mul_comm b a)

pub pow-add : (a n m : ℕ) → a ^ (n + m) ≡ a ^ n * a ^ m
pow-add a n zero = simp (add-zero, pow-zero, mul-one)
pow-add a n (suc m) = simp (add-suc, pow-suc, pow-add a n m, mul_assoc)

pub pow-succ : (a n : ℕ) → a ^ (n + 1) ≡ a ^ n * a
pow-succ a n = simp (add-one, pow-suc)
