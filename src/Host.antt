-- ===== src/Host.antt =====
-- near_mock/hosts.rs: the host functions on storage and registers, for a guest's memory and gas.
pub mod Storage
pub mod Registers
pub mod Promises
pub mod Actions
pub mod Context
pub mod Crypto
pub mod Curves
pub mod Block
pub mod Contract
pub mod Program
pub mod Guest
mod Tests
use near_mock.Base.{
  ℕ, ◌+◌, ◌-◌, ◌*◌, ◌%◌, ◌^◌, Bool, true, false, List, Option, none, some, Bytes, length, take,
  drop, ltb, leb, if◌then◌else◌,
}
use near_mock.Base.Utf8.{from_utf8_lossy, from_le_bytes}
use near_mock.State.{MockState, RegisterError, RegisterResult, write_reg_checked}
use near_mock.Promise.{World, contract_of}

-- The state that a host function reaches, the guest's memory, and the global `remaining_gas`.
pub record Vm : Type 0 where
  pub world : World
  pub memory : Bytes
  pub gas : ℕ

-- Why a host function traps. A panic is one of the Rust code.
pub data HostError : Type 0 where
  prohibited_in_view : HostError
  gas_exceeded : HostError
  invalid_register : ℕ → HostError
  register_refused : RegisterError → HostError
  memory_access : HostError
  invalid_key : HostError
  invalid_input : HostError
  guest_panic : Bytes → HostError
  aborted : HostError
  deprecated : HostError
  panicked : HostError

pub data Out : Type 0 where
  done : ℕ → Vm → Out
  trap : HostError → Vm → Out

-- A panic of the Rust code, which unwinds; the other errors are traps of the contract.
abbrev pub is_panic : HostError → Bool
is_panic panicked = true
is_panic memory_access = false
is_panic invalid_key = false
is_panic invalid_input = false
is_panic (guest_panic msg) = false
is_panic aborted = false
is_panic deprecated = false
is_panic prohibited_in_view = false
is_panic gas_exceeded = false
is_panic (invalid_register r) = false
is_panic (register_refused e) = false

abbrev pub panics : Out → Bool
panics (done r vm) = false
panics (trap e vm) = is_panic e

abbrev pub u64_mod : ℕ
u64_mod = 2 ^ 64

abbrev pub write_register_base_gas : ℕ
write_register_base_gas = 2865522486

abbrev pub write_register_byte_gas : ℕ
write_register_byte_gas = 3801564

abbrev pub read_memory_base_gas : ℕ
read_memory_base_gas = 2609863200

abbrev pub read_memory_byte_gas : ℕ
read_memory_byte_gas = 3801333

abbrev pub keccak512_base_gas : ℕ
keccak512_base_gas = 5811388236

abbrev pub keccak512_byte_gas : ℕ
keccak512_byte_gas = 36649701

abbrev pub write_memory_base_gas : ℕ
write_memory_base_gas = 2803794861

abbrev pub write_memory_byte_gas : ℕ
write_memory_byte_gas = 2723772

abbrev pub with_st : Vm → MockState → Vm
with_st vm st = record vm { world = record vm.world { st = st } }

abbrev pub acct_of : Vm → Bytes
acct_of vm = contract_of vm.world.exec_ctx

abbrev pub exec_ctx_view : Vm → Bool
exec_ctx_view vm = elim vm.world.exec_ctx [ none ↦ vm.world.st.view | some ctx ↦ ctx.view ]

-- `charge_gas`, and what follows it. The amount is a sum on `u64`.
unfoldable pub charge_gas : ℕ → Vm → (Vm → Out) → Out
charge_gas amount vm rest = elim (ltb vm.gas (amount % u64_mod)) [
  | true ↦ trap gas_exceeded vm
  | false ↦ rest (record vm { gas = vm.gas - amount % u64_mod })
]

abbrev pub host_call_base_gas : ℕ
host_call_base_gas = 264768111

-- `host_fn`: the base cost of every call, then the body. The trace it may print is left out.
abbrev pub host_fn : (Vm → Out) → Vm → Out
host_fn f vm = charge_gas host_call_base_gas vm f

-- A range of the guest's memory: outside of it, or its bytes. The sum of the test wraps, and where it
-- does the slice panics.
pub data Slice : Type 0 where
  outside : Slice
  bytes : Bytes → Slice
  broken : Slice

unfoldable pub slice : ℕ → ℕ → Bytes → Slice
slice ptr len memory =
    if ltb (length memory) ((ptr + len) % u64_mod)
    then outside
    else if ltb (length memory) (ptr + len)
    then broken
    else bytes (take len (drop ptr memory))

-- `write_reg_checked(..)?`, and what follows it.
unfoldable pub write_reg : ℕ → Bytes → Vm → (Vm → Out) → Out
unfolding write_reg_checked
write_reg rid v vm rest = elim (write_reg_checked vm.world.st rid v) [
  | RegisterResult.ok st ↦ rest (with_st vm st)
  | RegisterResult.err e ↦ trap (register_refused e) vm
]

-- `mem_read_str_checked(..)?`, and what follows it.
unfoldable pub read_str : ℕ → ℕ → Vm → (Bytes → Out) → Out
read_str len ptr vm next = elim (slice ptr len vm.memory) [
  | outside ↦ trap memory_access vm
  | broken ↦ trap panicked vm
  | bytes v ↦ next (from_utf8_lossy v)
]

-- The 16 bytes of a `u128`, zero where they are outside.
unfoldable pub read_u128 : ℕ → Vm → (ℕ → Out) → Out
read_u128 ptr vm next = elim (slice ptr 16 vm.memory) [
  | outside ↦ next 0
  | broken ↦ trap panicked vm
  | bytes v ↦ next (from_le_bytes v)
]
