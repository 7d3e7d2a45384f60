-- ===== src/Tx/Entry/Rollback.antt =====
-- mod.rs, `execute_tx`: a transaction whose entry traps.
use near_mock.Base.{
  ℕ, ◌+◌, ◌-◌, ◌<◌, ◌≡◌, ◌≢◌, refl, ap, ◌∙◌, true, false, Option, some, Bytes, arith, ltb,
  if◌then◌else◌, Bool-cases, inl, inr,
}
use near_mock.Base.{bytes_Key, bytes_eq_iff}
use near_mock.Base.Map.{Map, lookup, remove, lookup-remove}
use near_mock.Base.Decimal.{to_string}
use near_mock.State.Balance.{
  u128_mod, bal_key, read_amount, write_amount, add_u128, read_amount-write_amount,
  lookup-write_amount, read_amount_absent, lossy_amount, lossy_amount-to_string,
}
use near_mock.Promise.{World, Res, ok, error, stop, fail_receipts_set}
use near_mock.Promise.Call.{Ran, trapped, Modules}
use near_mock.Tx.{TxOutcome, fresh_tx_state}
use near_mock.Tx.Entry.{
  Request, begin, attach_deposit, credit_attach, without_attach, finish, after_entry, execute_tx,
}

-- The entry trapped, and the balances and the storage are those of `m`.
abbrev pub RolledBack : Bytes → Map Bytes Bytes → Res TxOutcome → Type 0
RolledBack acct m (ok o w) =
    (o.ok ≡ false)
    × (o.entry_trapped ≡ true)
    × (read_amount w.st.storage (bal_key acct) ≡ read_amount m (bal_key acct))
    × ((k : Bytes) → k ≢ bal_key acct → lookup k w.st.storage ≡ lookup k m)
RolledBack acct m (error w) = ⊥
RolledBack acct m (stop s) = ⊥

begin-storage : (q : Request) (w : World) → (begin q w).st.storage ≡ w.st.storage
unfolding begin fresh_tx_state fail_receipts_set
begin-storage q w = refl

attached : Request → Map Bytes Bytes → Map Bytes Bytes
attached q m =
    if ltb 0 q.attach
    then write_amount m (bal_key q.contract_acct)
        (add_u128 (read_amount m (bal_key q.contract_acct)) q.attach)
    else m

attach_deposit-storage :
    (q : Request) (w : World) → (attach_deposit q w).st.storage ≡ attached q w.st.storage
unfolding attach_deposit credit_attach attached
attach_deposit-storage q w = elim (Bool-cases (ltb 0 q.attach)) [
  | inl e ↦ rw (e, attach_deposit, attached) refl
  | inr e ↦ rw (e, attach_deposit, attached) refl
]

without_attach-attached :
    (q : Request) (m : Map Bytes Bytes)
    → read_amount m (bal_key q.contract_acct) + q.attach < u128_mod
    → let n = without_attach q (attached q m) in
      (read_amount n (bal_key q.contract_acct) ≡ read_amount m (bal_key q.contract_acct))
      × ((k : Bytes) → k ≢ bal_key q.contract_acct → lookup k n ≡ lookup k m)
unfolding without_attach attached
without_attach-attached q m fits =
    let key = bal_key q.contract_acct in
    let bal = read_amount m key in
    let credited = write_amount m key (add_u128 bal q.attach) in
    let pre_bal = lossy_amount (to_string (add_u128 bal q.attach)) - q.attach in
    let exact = lossy_amount-to_string (add_u128 bal q.attach) (omega (arith, fits)) in
    (
      ground (
        arith,
        exact,
        read_amount-write_amount m key key (add_u128 bal q.attach),
        read_amount-write_amount credited key key pre_bal,
        lookup-write_amount m key key (add_u128 bal q.attach),
        read_amount_absent (remove key credited) key,
        lookup-remove key key credited,
        bytes_eq_iff key key,
      ),
      (λ k h. ground (
        arith,
        h,
        exact,
        lookup-write_amount m key k (add_u128 bal q.attach),
        lookup-write_amount m key key (add_u128 bal q.attach),
        lookup-write_amount credited key k pre_bal,
        lookup-remove key k credited,
        bytes_eq_iff key k,
        bytes_eq_iff key key,
      )),
    )

-- The world in which the code of the entry starts, with the deposit attached.
abbrev pub ready : Request → World → World
ready q w = attach_deposit q (begin q w)

ready-storage : (q : Request) (w : World) → (ready q w).st.storage ≡ attached q w.st.storage
ready-storage q w = attach_deposit-storage q (begin q w) ∙ ap (attached q) (begin-storage q w)

-- A transaction whose entry traps is not ok, and is rolled back: the contract's balance is what it was
-- before the attached deposit, and every other entry of the storage has its old value, whatever the
-- entry wrote before it trapped. The module's `start` function must not write to the storage, and the
-- balance with the deposit must stay below 2^128.
pub execute_tx-rolls_back :
    (modules : Modules) (started : Bytes → World → World) (depth rounds : ℕ) (q : Request)
    (w : World) (code : Bytes → World → Ran)
    → modules q.contract_acct ≡ some code
    → (started q.contract_acct (ready q w)).st.storage ≡ (ready q w).st.storage
    → read_amount w.st.storage (bal_key q.contract_acct) + q.attach < u128_mod
    → (left : World) (line : Option Bytes) → code q.method (ready q w) ≡ trapped left line
    → RolledBack q.contract_acct w.st.storage (execute_tx modules started depth rounds q w)
unfolding execute_tx after_entry finish
execute_tx-rolls_back modules started depth rounds q w code known pure fits left line traps =
    let snapshot = (started q.contract_acct (ready q w)).st.storage in
    let (bal, others) = without_attach-attached q w.st.storage fits in
    let same = ap (without_attach q) (pure ∙ ready-storage q w) in
    rw (known, execute_tx, traps, after_entry)
      (
        refl,
        refl,
        ap (λ m. read_amount m (bal_key q.contract_acct)) same ∙ bal,
        (λ k h. ap (lookup k) same ∙ others k h),
      )
