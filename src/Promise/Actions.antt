-- ===== src/Promise/Actions.antt =====
-- promises.rs, the arms of `execute_promise_uncached` for the actions that move balances and keys.
pub mod Laws
use near_mock.Base.{
  ℕ, ◌+◌, ◌-◌, Bool, true, false, not, ◌&&◌, List, [], ◌∷◌, ◌++◌, Option, none, some, Bytes, ltb,
  length, starts_with, if◌then◌else◌,
}
use near_mock.Base.{bytes_Key}
use near_mock.Base.Map.{Map, lookup, insert, remove, contains_key, keep_keys}
use near_mock.State.{prefixed_key, in_partition}
use near_mock.State.Balance.{read_amount, write_amount, bal_key, locked_key, add_u128}
use near_mock.Promise.{
  PAction, fn_call, transfer, stake, add_key, delete_key, delete_account, transfer_to_gas_key,
  add_gas_key, deploy_global_contract, use_global_contract, Results,
}

-- `batch_touched`: keys with the value to put back, in the order they were recorded.
abbrev pub Touched : Type 0
Touched = List (Bytes × Option Bytes)

-- What a batch has done so far: the storage, `batch_touched` and `out`.
pub record Progress : Type 0 where
  pub storage : Map Bytes Bytes
  pub touched : Touched
  pub out : Results

-- Whether the loop over the actions goes on, or left by `break`.
pub data Flow : Type 0 where
  continue : Progress → Flow
  halt : Progress → Flow

unfoldable pub put_back : Bytes → Option Bytes → Map Bytes Bytes → Map Bytes Bytes
put_back k none m = remove k m
put_back k (some v) m = insert k v m

-- The loop over `batch_touched`, first entry first.
unfoldable pub revert : Touched → Map Bytes Bytes → Map Bytes Bytes
unfolding put_back
revert [] m = m
revert ((k, v) ∷ r) m = revert r (put_back k v m)

-- `out.push(None); break`, after the revert.
unfoldable pub fail : Progress → Flow
unfolding revert
fail s = halt (record s { storage = revert s.touched s.storage; out = s.out ++ none ∷ [] })

-- `out.push(Some(vec![]))`
unfoldable pub succeed : Progress → Flow
succeed s = continue (record s { out = s.out ++ some [] ∷ [] })

-- `Transfer` and `TransferToGasKey`.
unfoldable pub transfer_action : Bytes → Bytes → ℕ → Progress → Flow
unfolding fail succeed
transfer_action creator account amt s =
    let debit_key = bal_key creator in
    let credit_key = bal_key account in
    let bal = read_amount s.storage debit_key in
    let debited = write_amount s.storage debit_key (bal - amt) in
    if ltb bal amt
    then fail s
    else succeed (record s {
      storage = write_amount debited credit_key (add_u128 (read_amount debited credit_key) amt);
      touched =
          s.touched
          ++ (debit_key, lookup debit_key s.storage) ∷ (credit_key, lookup credit_key debited) ∷ [];
    })

unfoldable pub stake_action : Bytes → ℕ → Progress → Flow
unfolding fail succeed
stake_action account amount s =
    let liquid = bal_key account in
    let locked = locked_key account in
    let bal = read_amount s.storage liquid in
    let debited = write_amount s.storage liquid (bal - amount) in
    if ltb bal amount
    then fail s
    else succeed (record s {
      storage = write_amount debited locked (add_u128 (read_amount debited locked) amount);
      touched = s.touched ++ (liquid, lookup liquid s.storage) ∷ [];
    })

-- "full"
abbrev full_access : Bytes
full_access = 102 ∷ 117 ∷ 108 ∷ 108 ∷ []

unfoldable pub add_key_action : Bytes → Progress → Flow
unfolding succeed
add_key_action pk s =
    let full = 2 ∷ pk in
    succeed (record s {
      storage = insert full full_access s.storage;
      touched = if contains_key full s.storage then s.touched else s.touched ++ (full, none) ∷ [];
    })

unfoldable pub delete_key_action : Bytes → Bytes → Progress → Flow
unfolding fail succeed
delete_key_action account pk s =
    let key = prefixed_key account (2 ∷ pk) in
    if contains_key key s.storage
    then succeed
        (record s { storage = remove key s.storage; touched = s.touched ++ (key, none) ∷ [] })
    else fail (record s { storage = remove key s.storage })

-- The beneficiary is credited first, then the partition removed.
unfoldable pub delete_account_action : Bytes → Bytes → Progress → Flow
unfolding succeed
delete_account_action account beneficiary s =
    let ben = bal_key beneficiary in
    let bal = read_amount s.storage (bal_key account) in
    let credited = write_amount s.storage ben (add_u128 (read_amount s.storage ben) bal) in
    succeed (record s { storage = keep_keys (λ k. not (in_partition account k)) credited })

-- Every action but a function call, which needs the engine.
unfoldable pub plain_action : Bytes → Bytes → PAction → Progress → Flow
unfolding transfer_action stake_action add_key_action delete_key_action delete_account_action
plain_action creator account (fn_call method args gas dep) s = continue s
plain_action creator account (transfer amt) s = transfer_action creator account amt s
plain_action creator account (stake amount) s = stake_action account amount s
plain_action creator account (add_key pk) s = add_key_action pk s
plain_action creator account (delete_key pk) s = delete_key_action account pk s
plain_action creator account (delete_account ben) s = delete_account_action account ben s
plain_action creator account (transfer_to_gas_key amt) s = transfer_action creator account amt s
plain_action creator account (add_gas_key pk) s = succeed s
plain_action creator account (deploy_global_contract code) s = succeed s
plain_action creator account (use_global_contract id) s = succeed s
