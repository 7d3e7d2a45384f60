-- ===== src/Host/Registers.antt =====
-- hosts.rs, `value_return`, `read_register`, `register_len`, `input` and `write_register`.
pub mod Calls
pub mod Copied
use near_mock.Base.{
  ℕ, ◌+◌, ◌-◌, ◌*◌, ◌^◌, Bool, true, false, List, [], ◌∷◌, ◌++◌, Option, none, some, Bytes, length,
  take, drop,
}
use near_mock.Base.{ℕ_eq}
use near_mock.Base.Map.{lookup}
use near_mock.State.{MockState, u64_max}
use near_mock.Gas.{GasSchedule}
use near_mock.Gas.Staking.{RunCfg}
use near_mock.Host.{
  Vm, Out, done, trap, HostError, invalid_register, panicked, Slice, outside, bytes, broken, slice,
  with_st, charge_gas, write_reg, write_register_base_gas, write_register_byte_gas,
  read_memory_base_gas, read_memory_byte_gas, write_memory_base_gas, write_memory_byte_gas,
  keccak512_base_gas, keccak512_byte_gas,
}

-- The last value wins.
unfoldable pub value_return : RunCfg → ℕ → ℕ → Vm → Out
value_return cfg len ptr vm =
    charge_gas (cfg.gas.value_return_base + cfg.gas.value_return_byte * len) vm (λ vm1.
      elim (slice ptr len vm1.memory) [
        | outside ↦ done 0 vm1
        | broken ↦ trap panicked vm1
        | bytes v ↦ done 0 (with_st vm1 (record vm1.world.st { return_data = some v }))
      ])

-- `md[ptr..ptr + data.len()].copy_from_slice(&data)`
unfoldable pub copy_from_slice : ℕ → Bytes → Bytes → Bytes
copy_from_slice ptr content md = take ptr md ++ (content ++ drop (ptr + length content) md)

unfoldable pub copy_out : ℕ → Bytes → Vm → Out
copy_out ptr content vm = elim (slice ptr (length content) vm.memory) [
  | outside ↦ done 0 vm
  | broken ↦ trap panicked vm
  | bytes old ↦ done 0 (record vm { memory = copy_from_slice ptr content vm.memory })
]

unfoldable pub read_register : RunCfg → ℕ → ℕ → Vm → Out
unfolding copy_out
read_register cfg rid ptr vm = elim (lookup rid vm.world.st.registers) [
  | none ↦ trap (invalid_register rid) vm
  | some content ↦
      charge_gas
        (cfg.gas.read_register_base
          + cfg.gas.read_register_byte * length content
          + write_memory_base_gas
          + write_memory_byte_gas * length content)
        vm (copy_out ptr content)
]

-- The length as the 64 bits returned, -1 for a register that is not set.
abbrev pub len_or_max : Option Bytes → ℕ
len_or_max none = u64_max
len_or_max (some d) = length d

unfoldable pub register_len : ℕ → Vm → Out
register_len rid vm =
    charge_gas read_memory_base_gas vm (done (len_or_max (lookup rid vm.world.st.registers)))

-- The arguments of the running call, or those the linker was built with.
abbrev pub input_bytes : Bytes → Vm → Bytes
input_bytes single_input vm = elim vm.world.exec_ctx [ none ↦ single_input | some ctx ↦ ctx.input ]

unfoldable pub input : Bytes → ℕ → Vm → Out
input single_input rid vm =
    let content = input_bytes single_input vm in
    charge_gas (write_register_base_gas + write_register_byte_gas * length content) vm
      (λ vm1. write_reg rid content vm1 (done 0))

unfoldable pub write_register : ℕ → ℕ → ℕ → Vm → Out
write_register len ptr rid vm =
    charge_gas
      (keccak512_base_gas
        + keccak512_byte_gas * len
        + read_memory_base_gas
        + read_memory_byte_gas * len
        + write_register_base_gas
        + write_register_byte_gas * 64)
      vm
      (λ vm1. elim (slice ptr len vm1.memory) [
        | outside ↦ done 0 vm1
        | broken ↦ trap panicked vm1
        | bytes content ↦ write_reg rid content vm1 (done 0)
      ])
