-- ===== src/Host/Storage.antt =====
-- hosts.rs, `storage_write`, `storage_read`, `storage_remove` and `storage_has_key`, without a fork.
pub mod Confined
pub mod Calls
pub mod Refines
use near_mock.Base.{
  ℕ, zero, suc, ◌+◌, ◌-◌, ◌*◌, ◌%◌, ◌^◌, Bool, true, false, not, ◌&&◌, List, [], ◌∷◌, Option, none,
  some, Bytes, length, leb, ◌==◌, if◌then◌else◌,
}
use near_mock.Base.{ℕ_eq, bytes_Key}
use near_mock.Base.Map.{lookup, insert, remove, contains_key}
use near_mock.State.{MockState, prefixed_key, u64_max, len_or_zero}
use near_mock.Gas.{GasSchedule}
use near_mock.Gas.Trie.{trie_charge, trie_charge_write}
use near_mock.Gas.Staking.{RunCfg, apply_staking_delta, ℤ, pos, negsuc}
use near_mock.Host.{
  Vm, Out, done, trap, HostError, prohibited_in_view, panicked, Slice, outside, bytes, broken,
  slice, with_st, acct_of, exec_ctx_view, charge_gas, write_reg, write_register_base_gas,
  write_register_byte_gas, read_memory_base_gas, read_memory_byte_gas,
}

-- `a as i64 - b as i64`
abbrev pub difference : ℕ → ℕ → ℤ
difference a b = if leb b a then pos (a - b) else negsuc (b - a - 1)

-- The key of a call in the storage of all accounts.
abbrev pub full_key : Vm → Bytes → Bytes
full_key vm raw = prefixed_key (acct_of vm) raw

abbrev pub storage_of : Vm → List (Bytes × Bytes)
storage_of vm = vm.world.st.storage

abbrev write_cost : GasSchedule → ℕ → ℕ → ℕ
write_cost g kl vl =
    g.storage_write_base
    + g.storage_write_key_byte * kl
    + g.storage_write_value_byte * vl
    + read_memory_base_gas
    + read_memory_byte_gas * kl
    + read_memory_base_gas
    + read_memory_byte_gas * vl

abbrev read_cost : GasSchedule → ℕ → ℕ → ℕ
read_cost g kl trie =
    g.storage_read_base
    + g.storage_read_key_byte * kl
    + trie
    + read_memory_base_gas
    + read_memory_byte_gas * kl

abbrev register_cost : ℕ → ℕ
register_cost len = write_register_base_gas + write_register_byte_gas * len

abbrev pub old_raw_len : Bytes → Bytes → Option Bytes → ℕ
old_raw_len acct key none = 0
old_raw_len acct key (some o) = length key - length acct - 1 + length o

-- The new state of a write: the key touched, the entry inserted, the stake adjusted.
unfoldable pub written : RunCfg → Bytes → Bytes → Bytes → MockState → MockState
written cfg acct key v st =
    let st1 = (trie_charge_write cfg.gas key st).1 in
    apply_staking_delta cfg acct
      (difference (length key + length v) (old_raw_len acct key (lookup key st.storage)))
      (record st1 { storage = insert key v st1.storage })

-- The evicted value goes to a register, unless that is `u64::MAX`.
unfoldable pub evict : ℕ → Option Bytes → Vm → Out
evict rid none vm = done 0 vm
evict rid (some old) vm = elim (rid == u64_max) [
  | true ↦ done 1 vm
  | false ↦ charge_gas (register_cost (length old)) vm (λ vm1. write_reg rid old vm1 (done 1))
]

unfoldable pub write_entry : RunCfg → ℕ → Bytes → Bytes → Vm → Out
unfolding evict written
write_entry cfg rid raw v vm =
    let key = full_key vm raw in
    let old = lookup key (storage_of vm) in
    charge_gas (write_cost cfg.gas (length raw) (length v)) vm (λ vm1.
      charge_gas (trie_charge_write cfg.gas key vm1.world.st).0
        (with_st vm1 (written cfg (acct_of vm) key v vm1.world.st)) (evict rid old))

unfoldable pub storage_write : RunCfg → ℕ → ℕ → ℕ → ℕ → ℕ → Vm → Out
unfolding write_entry
storage_write cfg kl kp vl vp rid vm = elim (exec_ctx_view vm) [
  | true ↦ trap prohibited_in_view vm
  | false ↦ elim (slice kp kl vm.memory) [
    | outside ↦ done 0 vm
    | broken ↦ elim (slice vp vl vm.memory) [
      | outside ↦ done 0 vm
      | broken ↦ trap panicked vm
      | bytes v ↦ trap panicked vm
    ]
    | bytes raw ↦ elim (slice vp vl vm.memory) [
      | outside ↦ done 0 vm
      | broken ↦ trap panicked vm
      | bytes v ↦ write_entry cfg rid raw v vm
    ]
  ]
]

unfoldable pub read_entry : RunCfg → ℕ → Bytes → Vm → Out
read_entry cfg rid raw vm =
    let key = full_key vm raw in
    let (trie, st1) = trie_charge cfg.gas key vm.world.st in
    let cost = read_cost cfg.gas (length raw) trie in
    elim (lookup key (storage_of vm)) [
      | none ↦ charge_gas cost (with_st vm st1) (done 0)
      | some v ↦
          charge_gas (cost + cfg.gas.storage_read_value_byte * length v + register_cost (length v))
            (with_st vm st1) (λ vm1. write_reg rid v vm1 (done 1))
    ]

unfoldable pub storage_read : RunCfg → ℕ → ℕ → ℕ → Vm → Out
unfolding read_entry
storage_read cfg kl kp rid vm = elim (slice kp kl vm.memory) [
  | outside ↦ done 0 vm
  | broken ↦ trap panicked vm
  | bytes raw ↦ read_entry cfg rid raw vm
]

-- The entry removed, its key touched, and the stake of its bytes released.
unfoldable pub removed : RunCfg → Bytes → Bytes → ℕ → MockState → MockState
removed cfg acct key freed st =
    let st1 = (trie_charge_write cfg.gas key (record st { storage = remove key st.storage })).1 in
    apply_staking_delta cfg acct (difference 0 freed) st1

unfoldable pub remove_entry : RunCfg → ℕ → Bytes → Vm → Out
unfolding removed
remove_entry cfg rid raw vm =
    let key = full_key vm raw in
    let trie = (trie_charge_write cfg.gas key vm.world.st).0 in
    let cost =
      cfg.gas.storage_remove_base
      + cfg.gas.storage_remove_key_byte * length raw
      + trie
      + read_memory_base_gas
      + read_memory_byte_gas * length raw in
    elim (lookup key (storage_of vm)) [
      | none ↦ done 0 (
          with_st vm
            (trie_charge_write cfg.gas key
              (record vm.world.st { storage = remove key (storage_of vm) })).1)
      | some v ↦
          charge_gas (cost + register_cost (length v))
            (with_st vm (removed cfg (acct_of vm) key (length raw + length v) vm.world.st))
            (λ vm1. elim (rid == u64_max) [
              | true ↦ done 1 vm1
              | false ↦ write_reg rid v vm1 (done 1)
            ])
    ]

unfoldable pub storage_remove : RunCfg → ℕ → ℕ → ℕ → Vm → Out
unfolding remove_entry
storage_remove cfg kl kp rid vm = elim (exec_ctx_view vm) [
  | true ↦ trap prohibited_in_view vm
  | false ↦ elim (slice kp kl vm.memory) [
    | outside ↦ done 0 vm
    | broken ↦ trap panicked vm
    | bytes raw ↦ remove_entry cfg rid raw vm
  ]
]

unfoldable pub storage_has_key : RunCfg → ℕ → ℕ → Vm → Out
storage_has_key cfg kl kp vm = elim (slice kp kl vm.memory) [
  | outside ↦ done 0 vm
  | broken ↦ trap panicked vm
  | bytes raw ↦
      let key = full_key vm raw in
      let (trie, st1) = trie_charge cfg.gas key vm.world.st in
      charge_gas
        (cfg.gas.storage_has_key_base
          + cfg.gas.storage_has_key_key_byte * length raw
          + trie
          + read_memory_base_gas
          + read_memory_byte_gas * length raw)
        (with_st vm st1) (done (if contains_key key (storage_of vm) then 1 else 0))
]
