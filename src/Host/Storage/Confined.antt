-- ===== src/Host/Storage/Confined.antt =====
-- hosts.rs: the storage functions reach no entry but those of the running contract's account.
use near_mock.Base.{
  ℕ, ◌%◌, ◌≡◌, ◌≢◌, refl, ap, ◌∙◌, Bool, true, false, List, [], ◌∷◌, ◌++◌, Option, Bytes, arith,
  ltb, starts_with, starts_with-append, Bool-cases, Option-cases, inl, inr,
}
use near_mock.Base.{ℕ_eq, bytes_Key, bytes_eq_iff}
use near_mock.Base.Map.{Map, lookup, remove, lookup-insert, lookup-remove}
use near_mock.State.{MockState, prefixed_key, write_reg_checked, reject}
use near_mock.State.Balance.{bal_key, near_bal, lookup-write_amount, read_amount}
use near_mock.Gas.Trie.{trie_charge_write}
use near_mock.Gas.Staking.{RunCfg, apply_staking_delta, staked_balance, ℤ}
use near_mock.Promise.{World, ExecCtx, Results, PromiseBatch}
use near_mock.Host.{Vm, Out, with_st, acct_of, charge_gas, write_reg, u64_mod}
use near_mock.Host.Program.{Along}
use near_mock.Host.Storage.{storage_of, written, removed}

-- The entries of an account, the one under its empty key included.
abbrev pub belongs : Bytes → Bytes → Bool
belongs acct k = starts_with k (acct ++ 1 ∷ [])

-- Nothing outside of the account changed.
abbrev pub SameOutside : Bytes → Map Bytes Bytes → Map Bytes Bytes → Type 0
SameOutside acct m n = (k : Bytes) → belongs acct k ≡ false → lookup k n ≡ lookup k m

-- What storage functions have no part in.
abbrev pub Frame : Type 0
Frame =
    Option ExecCtx
    × Map ℕ Results
    × List ℕ
    × List PromiseBatch
    × Option ℕ
    × Results
    × Results
    × List ℕ
    × List Bytes
    × Option ℕ
    × List Bytes
    × List PromiseBatch
    × Bool

abbrev pub frame : World → Frame
frame w = (
  w.exec_ctx, w.outcomes, w.executed, w.dag, w.pending_return, w.promise_results, w.mirror,
  w.fail_receipts, w.receipt_traps, w.current_deposit, w.logs, w.receipt_queue, w.defer_receipts,
)

-- From one state to a later one of the same contract.
abbrev pub Reaches : Vm → Vm → Type 0
Reaches vm vm' =
    SameOutside (acct_of vm) (storage_of vm) (storage_of vm') × (frame vm'.world ≡ frame vm.world)

-- In every outcome of a host function, traps included.
abbrev pub Confined : Vm → Out → Type 0
Confined vm o = Along Reaches vm o

prefix-append : (acct raw : Bytes) → acct ++ 1 ∷ raw ≡ (acct ++ 1 ∷ []) ++ raw
prefix-append [] raw = refl
prefix-append (c ∷ acct) raw = ap (λ r. c ∷ r) (prefix-append acct raw)

pub prefixed_key-belongs : (acct raw : Bytes) → belongs acct (prefixed_key acct raw) ≡ true
unfolding prefixed_key
prefixed_key-belongs acct raw =
    ap (belongs acct) (prefix-append acct raw) ∙ starts_with-append (acct ++ 1 ∷ []) raw

outside-distinct : (acct raw k : Bytes) → belongs acct k ≡ false → prefixed_key acct raw ≢ k
outside-distinct acct raw k out e =
    ground (arith, out, prefixed_key-belongs acct raw, ap (belongs acct) e)

apply_staking_delta-SameOutside :
    (cfg : RunCfg) (acct : Bytes) (d : ℤ) (st : MockState)
    → SameOutside acct st.storage (apply_staking_delta cfg acct d st).storage
unfolding apply_staking_delta bal_key
apply_staking_delta-SameOutside cfg acct d st k out =
    let key = prefixed_key acct near_bal in
    ground (
      arith,
      lookup-write_amount st.storage key k (staked_balance (read_amount st.storage key) d),
      bytes_eq_iff key k,
      outside-distinct acct near_bal k out,
    )

pub written-SameOutside :
    (cfg : RunCfg) (acct raw v : Bytes) (st : MockState)
    → SameOutside acct st.storage (written cfg acct (prefixed_key acct raw) v st).storage
unfolding written trie_charge_write
written-SameOutside cfg acct raw v st k out =
    let key = prefixed_key acct raw in
    apply_staking_delta-SameOutside cfg acct _ _ k out
    ∙ ground (
      arith,
      lookup-insert key k v st.storage,
      bytes_eq_iff key k,
      outside-distinct acct raw k out,
    )

pub remove-SameOutside :
    (acct raw : Bytes) (m : Map Bytes Bytes) → SameOutside acct m (remove (prefixed_key acct raw) m)
remove-SameOutside acct raw m k out =
    let key = prefixed_key acct raw in
    ground (arith, lookup-remove key k m, bytes_eq_iff key k, outside-distinct acct raw k out)

pub removed-SameOutside :
    (cfg : RunCfg) (acct raw : Bytes) (freed : ℕ) (st : MockState)
    → SameOutside acct st.storage (removed cfg acct (prefixed_key acct raw) freed st).storage
unfolding removed trie_charge_write
removed-SameOutside cfg acct raw freed st k out =
    apply_staking_delta-SameOutside cfg acct _ _ k out
    ∙ remove-SameOutside acct raw st.storage k out

pub charge_gas-Confined :
    (vm vm1 : Vm) (amount : ℕ) (rest : Vm → Out)
    → Reaches vm vm1
    → ((vm2 : Vm) → Reaches vm vm2 → Confined vm (rest vm2))
    → Confined vm (charge_gas amount vm1 rest)
unfolding charge_gas
charge_gas-Confined vm vm1 amount rest h k = elim (Bool-cases (ltb vm1.gas (amount % u64_mod))) [
  | inl e ↦ rw (e, charge_gas) h
  | inr e ↦ rw (e, charge_gas) (k (record vm1 { gas = _ }) h)
]

pub write_reg-Confined :
    (vm vm1 : Vm) (rid : ℕ) (v : Bytes) (rest : Vm → Out)
    → Reaches vm vm1
    → ((vm2 : Vm) → Reaches vm vm2 → Confined vm (rest vm2))
    → Confined vm (write_reg rid v vm1 rest)
unfolding write_reg write_reg_checked
write_reg-Confined vm vm1 rid v rest h k = elim (Option-cases (reject vm1.world.st rid v)) [
  | inl e ↦ rw (e, write_reg, write_reg_checked) (k (with_st vm1 _) h)
  | inr (r, e) ↦ rw (e, write_reg, write_reg_checked) h
]
