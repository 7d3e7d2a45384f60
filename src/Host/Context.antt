-- ===== src/Host/Context.antt =====
-- hosts.rs: the host functions that tell a contract about itself, its call, its balance and the block,
-- the logs and the panics of a contract.
pub mod Calls
use near_mock.Base.{
  ℕ, ◌+◌, ◌-◌, ◌*◌, ◌/◌, ◌%◌, ◌^◌, Bool, true, false, List, [], ◌∷◌, ◌++◌, Option, none, some,
  Bytes, length, ltb, leb, if◌then◌else◌, starts_with,
}
use near_mock.Base.{ℕ_eq, bytes_Key}
use near_mock.Base.Map.{Map, insert}
use near_mock.Base.Utf8.{from_utf8_lossy, to_le_bytes}
use near_mock.Base.Decimal.{to_string}
use near_mock.State.{MockState, prefixed_key}
use near_mock.State.Balance.{bal_key, read_amount}
use near_mock.Gas.{GasSchedule}
use near_mock.Gas.Staking.{RunCfg, locked_balance_for}
use near_mock.Promise.{World, ExecCtx, contract_of}
use near_mock.Host.{
  Vm, Out, done, trap, HostError, guest_panic, aborted, deprecated, panicked, Slice, outside, bytes,
  broken, slice, with_st, acct_of, charge_gas, write_reg, u64_mod, write_register_base_gas,
  write_register_byte_gas, read_memory_base_gas, read_memory_byte_gas,
}
use near_mock.Host.Registers.{copy_from_slice}

-- What the process gives: the variables NEAR_MOCK_SIGNER, NEAR_MOCK_ATTACH, NEAR_MOCK_BLOCK_TS,
-- NEAR_MOCK_BLOCK_HEIGHT, NEAR_MOCK_EPOCH and NEAR_MOCK_CHAIN_ID where they are set and parse, the clock
-- settings of `RunCfg`, the real clock in seconds, PREPAID_FUEL, NEAR_MOCK_SEED trimmed, and the real
-- clock in nanoseconds mixed with the number of the process. An `i64` is its 64 bits.
pub record Env : Type 0 where
  pub signer : Option Bytes
  pub attach : Option ℕ
  pub block_ts : Option ℕ
  pub block_height : Option ℕ
  pub epoch : Option ℕ
  pub chain_id : Option Bytes
  pub base_ts : Option ℕ
  pub advance_secs : ℕ
  pub unix_secs : ℕ
  pub prepaid_fuel : ℕ
  pub seed : Option Bytes
  pub entropy : ℕ

-- `registers.insert`, without the limits.
abbrev pub set_register : ℕ → Bytes → Vm → Vm
set_register rid v vm =
    with_st vm (record vm.world.st { registers = insert rid v vm.world.st.registers })

abbrev pub register_fee : ℕ → ℕ
register_fee len = write_register_base_gas + write_register_byte_gas * len

-- "escrow.test.near"
abbrev pub escrow : Bytes
escrow =
    101 ∷ 115 ∷ 99 ∷ 114 ∷ 111 ∷ 119 ∷ 46 ∷ 116 ∷ 101 ∷ 115 ∷ 116 ∷ 46 ∷ 110 ∷ 101 ∷ 97 ∷ 114 ∷ []

-- "owner.test.near"
abbrev pub owner : Bytes
owner = 111 ∷ 119 ∷ 110 ∷ 101 ∷ 114 ∷ 46 ∷ 116 ∷ 101 ∷ 115 ∷ 116 ∷ 46 ∷ 110 ∷ 101 ∷ 97 ∷ 114 ∷ []

abbrev pub current_account : Bytes → Bytes
current_account [] = escrow
current_account (b ∷ bs) = b ∷ bs

abbrev pub put_register : ℕ → Bytes → Vm → Out
put_register rid v vm =
    charge_gas (register_fee (length v)) vm (λ vm1. done 0 (set_register rid v vm1))

unfoldable pub current_account_id : ℕ → Vm → Out
current_account_id rid vm = put_register rid (current_account (acct_of vm)) vm

abbrev pub signer_of : Env → Option ExecCtx → Bytes
signer_of env none = elim env.signer [ none ↦ owner | some s ↦ s ]
signer_of env (some ctx) = ctx.signer

unfoldable pub signer_account_id : Env → ℕ → Vm → Out
signer_account_id env rid vm = put_register rid (signer_of env vm.world.exec_ctx) vm

abbrev pub predecessor_of : Option ExecCtx → Bytes
predecessor_of none = owner
predecessor_of (some ctx) = ctx.predecessor

unfoldable pub predecessor_account_id : ℕ → Vm → Out
predecessor_account_id rid vm = put_register rid (predecessor_of vm.world.exec_ctx) vm

-- `md[ptr..ptr + 16].copy_from_slice(&amt.to_le_bytes())`, where it is inside.
abbrev pub put_u128 : ℕ → ℕ → Vm → Out
put_u128 ptr amt vm = elim (slice ptr 16 vm.memory) [
  | outside ↦ done 0 vm
  | broken ↦ trap panicked vm
  | bytes old ↦ done 0 (record vm { memory = copy_from_slice ptr (to_le_bytes 16 amt) vm.memory })
]

-- The balance entry, less what storage locks.
unfoldable pub account_balance : RunCfg → ℕ → Vm → Out
account_balance cfg ptr vm =
    put_u128 ptr
      (read_amount vm.world.st.storage (bal_key (acct_of vm))
        - locked_balance_for cfg (acct_of vm) vm.world.st)
      vm

unfoldable pub account_locked_balance : RunCfg → ℕ → Vm → Out
account_locked_balance cfg ptr vm =
    put_u128 ptr (locked_balance_for cfg (acct_of vm) vm.world.st) vm

abbrev pub deposit_of : Env → Option ℕ → ℕ
deposit_of env (some d) = d
deposit_of env none = elim env.attach [ none ↦ 0 | some a ↦ a ]

unfoldable pub attached_deposit : Env → ℕ → Vm → Out
attached_deposit env ptr vm = put_u128 ptr (deposit_of env vm.world.current_deposit) vm

unfoldable pub used_gas : Env → Vm → Out
used_gas env vm = done (env.prepaid_fuel - vm.gas) vm

unfoldable pub prepaid_gas : Env → Vm → Out
prepaid_gas env vm = done env.prepaid_fuel vm

-- `(base + advance) * 1_000_000_000` on `i64`, in its 64 bits.
abbrev pub mock_now_nanos : Env → ℕ
mock_now_nanos env =
    (elim env.base_ts [ none ↦ env.unix_secs | some t ↦ t ] + env.advance_secs)
    * 1000000000
    % u64_mod

unfoldable pub block_timestamp : Env → Vm → Out
block_timestamp env vm = done (elim env.block_ts [ none ↦ mock_now_nanos env | some t ↦ t ]) vm

unfoldable pub block_index : Env → Vm → Out
block_index env vm = done (elim env.block_height [ none ↦ 1000 | some h ↦ h ]) vm

-- `max(0)` on an `i64` in its 64 bits.
abbrev pub max_zero : ℕ → ℕ
max_zero n = if ltb n (2 ^ 63) then n else 0

abbrev pub zero_or : Option ℕ → ℕ
zero_or none = 0
zero_or (some t) = t

unfoldable pub mock_epoch_height : Env → ℕ
mock_epoch_height env = elim env.epoch [
  | some e ↦ e
  | none ↦ max_zero ((zero_or env.base_ts + env.advance_secs) % u64_mod) / 43200
]

unfoldable pub epoch_height : Env → Vm → Out
unfolding mock_epoch_height
epoch_height env vm = done (mock_epoch_height env) vm

-- The bytes of the keys and values of an account.
abbrev pub usage_of : Bytes → Map Bytes Bytes → ℕ
usage_of acct [] = 0
usage_of acct ((k, v) ∷ m) =
    if starts_with k (prefixed_key acct [])
    then length k + length v + usage_of acct m
    else usage_of acct m

unfoldable pub storage_usage : Vm → Out
storage_usage vm = done (usage_of (acct_of vm) vm.world.st.storage % u64_mod) vm

unfoldable pub current_contract_code : ℕ → Vm → Out
current_contract_code rid vm = write_reg rid [] vm (done 0)

-- "testnet"
abbrev pub testnet : Bytes
testnet = 116 ∷ 101 ∷ 115 ∷ 116 ∷ 110 ∷ 101 ∷ 116 ∷ []

unfoldable pub chain_id : Env → ℕ → Vm → Out
chain_id env rid vm = write_reg rid (elim env.chain_id [ none ↦ testnet | some c ↦ c ]) vm (done 0)

abbrev pub utf8_decoding_base_gas : ℕ
utf8_decoding_base_gas = 3111779061

abbrev pub utf8_decoding_byte_gas : ℕ
utf8_decoding_byte_gas = 291580479

-- `handle_log_line`, of which the line is kept.
abbrev pub log_line : Bytes → Vm → Vm
log_line msg vm = record vm { world = record vm.world { logs = vm.world.logs ++ (msg ∷ []) } }

unfoldable pub log_utf8 : RunCfg → ℕ → ℕ → Vm → Out
log_utf8 cfg len ptr vm =
    charge_gas
      (cfg.gas.log_base
        + cfg.gas.log_byte * len
        + read_memory_base_gas
        + read_memory_byte_gas * len
        + utf8_decoding_base_gas
        + utf8_decoding_byte_gas * len)
      vm
      (λ vm1. elim (slice ptr len vm1.memory) [
        | outside ↦ done 0 vm1
        | broken ↦ trap panicked vm1
        | bytes v ↦ done 0 (log_line (from_utf8_lossy v) vm1)
      ])

-- "(bad ptr {}/{})"
abbrev pub bad_ptr : ℕ → ℕ → Bytes
bad_ptr ptr len =
    (40 ∷ 98 ∷ 97 ∷ 100 ∷ 32 ∷ 112 ∷ 116 ∷ 114 ∷ 32 ∷ [])
    ++ (to_string ptr ++ (47 ∷ (to_string len ++ (41 ∷ []))))

unfoldable pub panic_utf8 : ℕ → ℕ → Vm → Out
panic_utf8 len ptr vm = elim (slice ptr len vm.memory) [
  | outside ↦ trap (guest_panic (bad_ptr ptr len)) vm
  | broken ↦ trap panicked vm
  | bytes v ↦ trap (guest_panic (from_utf8_lossy v)) vm
]

-- `panic` and `abort`.
unfoldable pub abort : Vm → Out
abort vm = trap aborted vm

-- `log`, `log_s`, `validator_account_id` and the storage iterators.
unfoldable pub removed_host : Vm → Out
removed_host vm = trap deprecated vm
