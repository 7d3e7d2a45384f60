-- ===== src/Gas/Staking.antt =====
-- gas.rs, `locked_balance_for` and `apply_staking_delta`: the balance that pays for stored bytes.
use near_mock.Base.{
  ℕ, zero, suc, ◌+◌, ◌-◌, ◌*◌, ◌<◌, min, max, ◌≡◌, refl, ap, sym, subst, ◌∙◌, Bool, true, false,
  not, ◌&&◌, [], ◌∷◌, Bytes, arith, length, if◌then◌else◌, starts_with, ends_with, Bool-cases, inl,
  inr,
}
use near_mock.Base.{bytes_Key, bytes_eq_iff}
use near_mock.Base.Map.{Map}
use near_mock.State.{MockState, prefixed_key}
use near_mock.State.Balance.{
  u128_mod, near_bal, bal_key, read_amount, write_amount, add_u128, read_amount-lt,
  read_amount-write_amount,
}
use near_mock.Gas.{GasSchedule}

-- `RunCfg`, the two settings that charges depend on.
pub record RunCfg : Type 0 where
  pub gas : GasSchedule
  pub staking : Bool

abbrev pub staking_cost_per_byte : ℕ
staking_cost_per_byte = 100000000000000000000

-- `saturating_mul` on `u128`.
abbrev pub sat_mul : ℕ → ℕ → ℕ
sat_mul a b = min (a * b) (u128_mod - 1)

abbrev pub is_staked : Bytes → Bytes → Bool
is_staked acct k = starts_with k (prefixed_key acct []) && not (ends_with k near_bal)

abbrev pub staked_bytes : Bytes → Map Bytes Bytes → ℕ
staked_bytes acct [] = 0
staked_bytes acct ((k, v) ∷ m) =
    if is_staked acct k
    then add_u128 (length k + length v) (staked_bytes acct m)
    else staked_bytes acct m

unfoldable pub locked_balance_for : RunCfg → Bytes → MockState → ℕ
locked_balance_for cfg acct st =
    if cfg.staking then sat_mul (staked_bytes acct st.storage) staking_cost_per_byte else 0

-- `i64`, over the native numbers.
pub data ℤ : Type 0 where
  pos : ℕ → ℤ
  negsuc : ℕ → ℤ

-- The balance after `bytes_delta` more bytes, or fewer.
unfoldable pub staked_balance : ℕ → ℤ → ℕ
staked_balance bal (pos n) = bal - sat_mul n staking_cost_per_byte
staked_balance bal (negsuc n) = add_u128 bal (sat_mul (suc n) staking_cost_per_byte)

abbrev pub is_zero_delta : ℤ → Bool
is_zero_delta (pos zero) = true
is_zero_delta (pos (suc n)) = false
is_zero_delta (negsuc n) = false

unfoldable pub apply_staking_delta : RunCfg → Bytes → ℤ → MockState → MockState
unfolding staked_balance
apply_staking_delta cfg acct bytes_delta st =
    let key = bal_key acct in
    if not cfg.staking then st else if is_zero_delta bytes_delta then st else record st {
      storage =
          write_amount st.storage key (staked_balance (read_amount st.storage key) bytes_delta);
    }

abbrev pub cost_of : ℕ → ℕ
cost_of n = n * staking_cost_per_byte

apply-read :
    (cfg : RunCfg) (acct : Bytes) (d : ℤ) (st : MockState)
    → cfg.staking ≡ true
    → is_zero_delta d ≡ false
    → staked_balance (read_amount st.storage (bal_key acct)) d < u128_mod
    → read_amount (apply_staking_delta cfg acct d st).storage (bal_key acct)
      ≡ staked_balance (read_amount st.storage (bal_key acct)) d
unfolding apply_staking_delta
apply-read cfg acct d st on nonzero fits = ground (
  arith,
  read_amount-write_amount st.storage (bal_key acct) (bal_key acct)
      (staked_balance (read_amount st.storage (bal_key acct)) d),
  bytes_eq_iff (bal_key acct) (bal_key acct),
)

staked_balance-release :
    (bal n : ℕ)
    → bal < u128_mod
    → cost_of (suc n) < u128_mod
    → (staked_balance bal (pos (suc n)) < u128_mod)
      × (staked_balance (staked_balance bal (pos (suc n))) (negsuc n) ≡ max bal (cost_of (suc n)))
      × (staked_balance (staked_balance bal (pos (suc n))) (negsuc n) < u128_mod)
unfolding staked_balance
staked_balance-release bal n small fits = (omega arith, omega arith, omega arith)

apply_off :
    (cfg : RunCfg) (acct : Bytes) (d : ℤ) (st : MockState)
    → cfg.staking ≡ false
    → apply_staking_delta cfg acct d st ≡ st
unfolding apply_staking_delta
apply_off cfg acct d st off = rw (off, apply_staking_delta) refl

-- With staking on, to lock the price of some bytes and then release it leaves the larger of the
-- balance and that price: the old balance where it could pay, the whole price where it could not.
-- Without staking nothing changes.
pub apply_staking_delta-release :
    (cfg : RunCfg) (acct : Bytes) (n : ℕ) (st : MockState)
    → cost_of (suc n) < u128_mod
    → read_amount
        (apply_staking_delta cfg acct
          (negsuc n)
          (apply_staking_delta cfg acct (pos (suc n)) st)).storage
        (bal_key acct)
      ≡ (if cfg.staking
          then max (read_amount st.storage (bal_key acct)) (cost_of (suc n))
          else read_amount st.storage (bal_key acct))
apply_staking_delta-release cfg acct n st fits = elim (Bool-cases cfg.staking) [
  | inr off ↦
      ap (λ t. read_amount t.storage (bal_key acct))
        (apply_off cfg acct (negsuc n) (apply_staking_delta cfg acct (pos (suc n)) st) off
          ∙ apply_off cfg acct (pos (suc n)) st off)
      ∙ sym (ap choose off)
  | inl on ↦
      let locked = apply_staking_delta cfg acct (pos (suc n)) st in
      let (small, total, bound) =
        staked_balance-release bal n (read_amount-lt st.storage (bal_key acct)) fits in
      let less = apply-read cfg acct (pos (suc n)) st on refl small in
      let release = ap (λ b. staked_balance b (negsuc n)) less in
      apply-read cfg acct (negsuc n) locked on refl (subst (λ b. b < u128_mod) (sym release) bound)
      ∙ release
      ∙ total
      ∙ sym (ap choose on)
]
  where
    bal : ℕ
    bal = read_amount st.storage (bal_key acct)

    choose : Bool → ℕ
    choose b = if b then max bal (cost_of (suc n)) else bal
