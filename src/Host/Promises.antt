-- ===== src/Host/Promises.antt =====
-- mod.rs, `build_promise_hosts`: the host functions that schedule promises. promise_yield_resume is in
-- Host/Promises/Resume.
pub mod Grows
pub mod Calls
pub mod Endless
pub mod Resume
use near_mock.Base.{
  ℕ, zero, suc, ◌+◌, ◌*◌, ◌%◌, ◌^◌, Bool, true, false, List, [], ◌∷◌, ◌++◌, Option, none, some,
  Bytes, length, get_elem?,
}
use near_mock.Base.{ℕ_eq, bytes_Key}
use near_mock.Base.Map.{insert}
use near_mock.Base.Utf8.{from_le_bytes}
use near_mock.Base.Decimal.{to_string}
use near_mock.State.{MockState, RegisterResult, write_reg_checked}
use near_mock.Promise.{PAction, fn_call, transfer, PromiseBatch, World, contract_of, dag_push}
use near_mock.Host.{
  Vm, Out, done, trap, HostError, panicked, Slice, outside, bytes, broken, slice, with_st,
  charge_gas, read_str, read_u128, read_memory_base_gas, read_memory_byte_gas, u64_mod,
}

abbrev pub promise_and_base_gas : ℕ
promise_and_base_gas = 1465013400

abbrev pub promise_and_per_gas : ℕ
promise_and_per_gas = 5452176

abbrev pub promise_return_gas : ℕ
promise_return_gas = 560152386

abbrev pub push : List ℕ → Bytes → List PAction → Vm → Out
push deps account actions vm =
    let (idx, w) = dag_push deps account actions vm.world in done idx (record vm { world = w })

-- `d.get_mut(idx)` and, where it is there, `actions.push(a)`.
abbrev pub add_action : ℕ → PAction → List PromiseBatch → List PromiseBatch
add_action idx a [] = []
add_action zero a (b ∷ dag) = record b { actions = b.actions ++ a ∷ [] } ∷ dag
add_action (suc idx) a (b ∷ dag) = b ∷ add_action idx a dag

abbrev pub with_action : ℕ → PAction → Vm → Vm
with_action idx a vm = record vm { world = record vm.world { dag = add_action idx a vm.world.dag } }

unfoldable pub promise_batch_create : ℕ → ℕ → Vm → Out
promise_batch_create acct_len acct_ptr vm =
    charge_gas (read_memory_base_gas + read_memory_byte_gas * acct_len) vm
      (λ vm1. read_str acct_len acct_ptr vm1 (λ acct. push [] acct [] vm1))

unfoldable pub promise_batch_then : ℕ → ℕ → ℕ → Vm → Out
promise_batch_then idx acct_len acct_ptr vm =
    read_str acct_len acct_ptr vm (λ acct. push (idx ∷ []) acct [] vm)

unfoldable pub promise_batch_action_function_call : (idx ml mp al ap dep_ptr gas : ℕ) → Vm → Out
promise_batch_action_function_call idx ml mp al ap dep_ptr gas vm = read_str ml mp vm (λ method.
    read_str al ap vm (λ args.
      read_u128 dep_ptr vm (λ dep. done 0 (with_action idx (fn_call method args gas dep) vm))))

unfoldable pub promise_batch_action_transfer : ℕ → ℕ → Vm → Out
promise_batch_action_transfer idx amt_ptr vm =
    read_u128 amt_ptr vm (λ amt. done 0 (with_action idx (transfer amt) vm))

unfoldable pub promise_create : (acl acp ml mp al ap gas : ℕ) → Vm → Out
promise_create acl acp ml mp al ap gas vm = read_str acl acp vm (λ acct.
    read_str ml mp vm
      (λ method. read_str al ap vm (λ args. push [] acct (fn_call method args gas 0 ∷ []) vm)))

unfoldable pub promise_then : (idx acl acp ml mp al ap gas : ℕ) → Vm → Out
promise_then idx acl acp ml mp al ap gas vm = read_str acl acp vm (λ acct.
    read_str ml mp vm (λ method.
      read_str al ap vm (λ args. push (idx ∷ []) acct (fn_call method args gas 0 ∷ []) vm)))

-- The loop of `promise_and` over the indices left: those outside of the memory are left out, and
-- `none` is a panic.
unfoldable pub read_deps : ℕ → ℕ → Bytes → Option (List ℕ)
read_deps zero off md = some []
read_deps (suc count) off md = elim (slice off 8 md) [
  | outside ↦ read_deps count ((off + 8) % u64_mod) md
  | broken ↦ none
  | bytes v ↦ elim (read_deps count ((off + 8) % u64_mod) md) [
    | none ↦ none
    | some deps ↦ some (from_le_bytes v ∷ deps)
  ]
]

unfoldable pub promise_and : ℕ → ℕ → Vm → Out
unfolding read_deps
promise_and ptr count vm =
    charge_gas (promise_and_base_gas + promise_and_per_gas * count) vm (λ vm1.
      elim (read_deps count ptr vm1.memory) [
        | none ↦ trap panicked vm1
        | some deps ↦ push deps [] [] vm1
      ])

unfoldable pub promise_results_count : Vm → Out
promise_results_count vm = done (length vm.world.promise_results) vm

-- The register of an empty result is set without a test; a refused one is left as it was.
abbrev pub store_result : ℕ → Bytes → MockState → MockState
store_result rid [] st = record st { registers = insert rid [] st.registers }
store_result rid (b ∷ bs) st = elim (write_reg_checked st rid (b ∷ bs)) [
  | RegisterResult.ok st' ↦ st'
  | RegisterResult.err e ↦ st
]

unfoldable pub promise_result : ℕ → ℕ → Vm → Out
promise_result idx rid vm = elim (get_elem? vm.world.promise_results idx) [
  | none ↦ done 0 vm
  | some none ↦ done 0 vm
  | some (some v) ↦ done 1 (with_st vm (store_result rid v vm.world.st))
]

unfoldable pub promise_return : ℕ → Vm → Out
promise_return idx vm =
    charge_gas promise_return_gas vm
      (λ vm1. done 0 (record vm1 { world = record vm1.world { pending_return = some idx } }))

-- "\x00yield:" and the index.
abbrev pub yield_prefix : Bytes
yield_prefix = 0 ∷ 121 ∷ 105 ∷ 101 ∷ 108 ∷ 100 ∷ 58 ∷ []

unfoldable pub yield_key : ℕ → Bytes
yield_key idx = yield_prefix ++ to_string idx

-- "yd:" and the index.
abbrev pub data_id_prefix : Bytes
data_id_prefix = 121 ∷ 100 ∷ 58 ∷ []

unfoldable pub data_id : ℕ → Bytes
data_id idx = data_id_prefix ++ to_string idx

-- The parts of a persisted yield, between bytes 31.
abbrev pub yield_spec : Bytes → Bytes → Bytes → Bytes
yield_spec contract method args = contract ++ (31 ∷ (method ++ (31 ∷ (contract ++ (31 ∷ args)))))

abbrev pub yield_batch_of : Bytes → Bytes → Bytes → ℕ → PromiseBatch
yield_batch_of contract method args gas = record {
  deps = [];
  account = contract;
  creator = contract;
  actions = fn_call method args gas 0 ∷ [];
  is_yield = true;
}

unfoldable pub with_yield : Bytes → Bytes → ℕ → ℕ → World → World
unfolding yield_key data_id
with_yield method args gas reg w =
    let contract = contract_of w.exec_ctx in
    let idx = length w.dag in
    record w {
      dag = w.dag ++ yield_batch_of contract method args gas ∷ [];
      st = record w.st {
        registers = insert reg (data_id idx) w.st.registers;
        storage = insert (yield_key idx) (yield_spec contract method args) w.st.storage;
      };
    }

unfoldable pub promise_yield_create : (ml mp al ap gas reg : ℕ) → Vm → Out
unfolding with_yield
promise_yield_create ml mp al ap gas reg vm = read_str ml mp vm (λ method.
    read_str al ap vm (λ args.
      done (length vm.world.dag) (record vm { world = with_yield method args gas reg vm.world })))
