-- ===== src/Host/Actions.antt =====
-- hosts.rs: the host functions that add actions on keys, accounts, stakes and global contracts to a
-- batch, and the weighted function call.
pub mod Calls
use near_mock.Base.{
  ℕ, ◌+◌, ◌%◌, Bool, true, false, not, ◌||◌, List, [], ◌∷◌, Option, none, some, Bytes, length, ltb,
  ◌==◌, get_elem?,
}
use near_mock.Base.{ℕ_eq}
use near_mock.Base.Utf8.{from_utf8_lossy, from_le_bytes}
use near_mock.Promise.{
  PAction, fn_call, stake, add_key, delete_key, delete_account, transfer_to_gas_key, add_gas_key,
  deploy_global_contract, use_global_contract, PromiseBatch, World,
}
use near_mock.Host.{
  Vm, Out, done, trap, HostError, memory_access, invalid_key, panicked, Slice, outside, bytes,
  broken, slice, read_u128,
}
use near_mock.Host.Promises.{with_action}

-- `if let Some(b) = d.get_mut(idx) { b.actions.push(..) } else { panic!(..) }`
unfoldable pub record_action : ℕ → PAction → Vm → Out
record_action idx a vm = elim (get_elem? vm.world.dag idx) [
  | none ↦ trap panicked vm
  | some b ↦ done 0 (with_action idx a vm)
]

-- `mem_read_str(..).unwrap_or_default()`
unfoldable pub read_or_empty : ℕ → ℕ → Vm → (Bytes → Out) → Out
read_or_empty len ptr vm next = elim (slice ptr len vm.memory) [
  | outside ↦ next []
  | broken ↦ trap panicked vm
  | bytes v ↦ next (from_utf8_lossy v)
]

-- A range that must lie in the memory.
unfoldable pub checked : ℕ → ℕ → Vm → (Bytes → Out) → Out
checked len ptr vm next = elim (slice ptr len vm.memory) [
  | outside ↦ trap memory_access vm
  | broken ↦ trap panicked vm
  | bytes v ↦ next v
]

-- The bytes of a key: 33 of them.
unfoldable pub checked_key : ℕ → ℕ → Vm → (Bytes → Out) → Out
unfolding checked
checked_key pk_len pk_ptr vm next = elim (pk_len == 33) [
  | true ↦ checked pk_len pk_ptr vm next
  | false ↦ trap memory_access vm
]

-- `pk[0] != 0xED`
abbrev pub is_ed25519 : Bytes → Bool
is_ed25519 [] = false
is_ed25519 (b ∷ bs) = b == 237

-- Only ED25519 keys, which 0xED stands before.
unfoldable pub ed25519_key : ℕ → ℕ → Vm → (Bytes → Out) → Out
unfolding checked_key
ed25519_key pk_len pk_ptr vm next =
    checked_key pk_len pk_ptr vm
      (λ pk. elim (is_ed25519 pk) [ true ↦ next pk | false ↦ trap invalid_key vm ])

unfoldable pub promise_batch_action_function_call_weight :
    (idx ml mp al ap dep_ptr gas : ℕ) → Vm → Out
unfolding read_or_empty
promise_batch_action_function_call_weight idx ml mp al ap dep_ptr gas vm =
    read_or_empty ml mp vm (λ method. read_or_empty al ap vm (λ args.
      read_u128 dep_ptr vm (λ dep. done 0 (with_action idx (fn_call method args gas dep) vm))))

-- The test on both ranges and the length stands before both reads.
unfoldable pub promise_batch_action_stake : (idx amt_ptr pk_len pk_ptr : ℕ) → Vm → Out
unfolding record_action
promise_batch_action_stake idx amt_ptr pk_len pk_ptr vm = elim (pk_len == 33) [
  | false ↦ trap memory_access vm
  | true ↦ elim (slice amt_ptr 16 vm.memory) [
    | outside ↦ trap memory_access vm
    | broken ↦ elim (slice pk_ptr pk_len vm.memory) [
      | outside ↦ trap memory_access vm
      | broken ↦ trap panicked vm
      | bytes pk ↦ trap panicked vm
    ]
    | bytes amt ↦ elim (slice pk_ptr pk_len vm.memory) [
      | outside ↦ trap memory_access vm
      | broken ↦ trap panicked vm
      | bytes pk ↦ elim (is_ed25519 pk) [
        | false ↦ trap invalid_key vm
        | true ↦ record_action idx (stake (from_le_bytes amt)) vm
      ]
    ]
  ]
]

unfoldable pub promise_batch_action_add_key_with_full_access : (idx pk_len pk_ptr : ℕ) → Vm → Out
unfolding ed25519_key record_action
promise_batch_action_add_key_with_full_access idx pk_len pk_ptr vm =
    ed25519_key pk_len pk_ptr vm (λ pk. record_action idx (add_key pk) vm)

-- The allowance, the receiver and the method names are not looked at.
unfoldable pub promise_batch_action_add_key_with_function_call : (idx pk_len pk_ptr : ℕ) → Vm → Out
unfolding ed25519_key record_action
promise_batch_action_add_key_with_function_call idx pk_len pk_ptr vm =
    ed25519_key pk_len pk_ptr vm (λ pk. record_action idx (add_key pk) vm)

unfoldable pub promise_batch_action_delete_key : (idx pk_len pk_ptr : ℕ) → Vm → Out
unfolding checked_key record_action
promise_batch_action_delete_key idx pk_len pk_ptr vm =
    checked_key pk_len pk_ptr vm (λ pk. record_action idx (delete_key pk) vm)

unfoldable pub promise_batch_action_delete_account : (idx ben_len ben_ptr : ℕ) → Vm → Out
unfolding checked record_action
promise_batch_action_delete_account idx ben_len ben_ptr vm =
    checked ben_len ben_ptr vm (λ v. record_action idx (delete_account (from_utf8_lossy v)) vm)

-- The key's range is tested before both reads, and its bytes are not used.
unfoldable pub promise_batch_action_transfer_to_gas_key :
    (idx key_len key_ptr amt_ptr : ℕ) → Vm → Out
unfolding record_action
promise_batch_action_transfer_to_gas_key idx key_len key_ptr amt_ptr vm =
    elim (slice key_ptr key_len vm.memory) [
      | outside ↦ trap memory_access vm
      | broken ↦ elim (slice amt_ptr 16 vm.memory) [
        | outside ↦ trap memory_access vm
        | broken ↦ trap panicked vm
        | bytes amt ↦ trap panicked vm
      ]
      | bytes key ↦ elim (slice amt_ptr 16 vm.memory) [
        | outside ↦ trap memory_access vm
        | broken ↦ trap panicked vm
        | bytes amt ↦ record_action idx (transfer_to_gas_key (from_le_bytes amt)) vm
      ]
    ]

unfoldable pub promise_batch_action_add_gas_key_with_full_access :
    (idx pk_len pk_ptr : ℕ) → Vm → Out
unfolding ed25519_key record_action
promise_batch_action_add_gas_key_with_full_access idx pk_len pk_ptr vm =
    ed25519_key pk_len pk_ptr vm (λ pk. record_action idx (add_gas_key pk) vm)

unfoldable pub promise_batch_action_add_gas_key_with_function_call :
    (idx pk_len pk_ptr : ℕ) → Vm → Out
unfolding ed25519_key record_action
promise_batch_action_add_gas_key_with_function_call idx pk_len pk_ptr vm =
    ed25519_key pk_len pk_ptr vm (λ pk. record_action idx (add_gas_key pk) vm)

unfoldable pub promise_batch_action_deploy_global_contract : (idx len ptr : ℕ) → Vm → Out
unfolding checked record_action
promise_batch_action_deploy_global_contract idx len ptr vm =
    checked len ptr vm (λ code. record_action idx (deploy_global_contract code) vm)

unfoldable pub promise_batch_action_deploy_global_contract_by_account_id :
    (idx len ptr : ℕ) → Vm → Out
unfolding checked record_action
promise_batch_action_deploy_global_contract_by_account_id idx len ptr vm =
    checked len ptr vm (λ code. record_action idx (deploy_global_contract code) vm)

unfoldable pub promise_batch_action_use_global_contract : (idx len ptr : ℕ) → Vm → Out
unfolding checked record_action
promise_batch_action_use_global_contract idx len ptr vm =
    checked len ptr vm (λ v. record_action idx (use_global_contract (from_utf8_lossy v)) vm)

unfoldable pub promise_batch_action_use_global_contract_by_account_id : (idx len ptr : ℕ) → Vm → Out
unfolding checked record_action
promise_batch_action_use_global_contract_by_account_id idx len ptr vm =
    checked len ptr vm (λ v. record_action idx (use_global_contract (from_utf8_lossy v)) vm)
