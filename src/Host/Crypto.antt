-- ===== src/Host/Crypto.antt =====
-- hosts.rs: the host functions for digests and signatures. The digests, which third-party crates
-- compute, and the check of Ed25519 signatures are parameters.
pub mod Calls
use near_mock.Base.{
  ℕ, ◌+◌, ◌*◌, ◌%◌, ◌^◌, Bool, true, false, not, ◌||◌, List, [], ◌∷◌, Option, none, some, Bytes,
  length, ltb, ◌==◌,
}
use near_mock.Base.{ℕ_eq}
use near_mock.Schnorr.Verify.{schnorr_verify_impl}
use near_mock.Host.{
  Vm, Out, done, trap, panicked, Slice, outside, bytes, broken, slice, charge_gas, write_reg,
  write_register_base_gas, write_register_byte_gas, read_memory_base_gas, read_memory_byte_gas,
}

abbrev pub sha256_base_gas : ℕ
sha256_base_gas = 4540970250

abbrev pub sha256_byte_gas : ℕ
sha256_byte_gas = 24117351

abbrev pub keccak256_base_gas : ℕ
keccak256_base_gas = 5879491275

abbrev pub keccak256_byte_gas : ℕ
keccak256_byte_gas = 21471105

-- The digest of a range of the memory goes to a register, where the range is inside.
abbrev pub digest_to_register : (Bytes → Bytes) → ℕ → ℕ → ℕ → Vm → Out
digest_to_register digest len ptr rid vm = elim (slice ptr len vm.memory) [
  | outside ↦ done 0 vm
  | broken ↦ trap panicked vm
  | bytes v ↦ write_reg rid (digest v) vm (done 0)
]

-- Charged for a register of 32 bytes.
abbrev pub digest_fee : ℕ → ℕ → ℕ → ℕ
digest_fee base byte len =
    base
    + byte * len
    + read_memory_base_gas
    + read_memory_byte_gas * len
    + write_register_base_gas
    + write_register_byte_gas * 32

module _ (digest : Bytes → Bytes) where
  unfoldable pub sha256 : ℕ → ℕ → ℕ → Vm → Out
  sha256 len ptr rid vm =
      charge_gas (digest_fee sha256_base_gas sha256_byte_gas len) vm
        (digest_to_register digest len ptr rid)

  unfoldable pub keccak256 : ℕ → ℕ → ℕ → Vm → Out
  keccak256 len ptr rid vm =
      charge_gas (digest_fee keccak256_base_gas keccak256_byte_gas len) vm
        (digest_to_register digest len ptr rid)

  -- No fee but that of every call.
  unfoldable pub keccak512 : ℕ → ℕ → ℕ → Vm → Out
  keccak512 len ptr rid vm = digest_to_register digest len ptr rid vm

  unfoldable pub ripemd160 : ℕ → ℕ → ℕ → Vm → Out
  ripemd160 len ptr rid vm = digest_to_register digest len ptr rid vm

abbrev pub bit : Bool → ℕ
bit true = 1
bit false = 0

-- The check on three ranges: 0 where one is outside, or where reading it panics, which the host
-- function catches.
abbrev pub check_three : (Bytes → Bytes → Bytes → Bool) → Slice → Slice → Slice → ℕ
check_three verify outside sig msg = 0
check_three verify broken sig msg = 0
check_three verify (bytes pk) outside msg = 0
check_three verify (bytes pk) broken msg = 0
check_three verify (bytes pk) (bytes sig) outside = 0
check_three verify (bytes pk) (bytes sig) broken = 0
check_three verify (bytes pk) (bytes sig) (bytes msg) = bit (verify pk sig msg)

-- Its arguments are an `i32` each, here after the cast to `usize`.
unfoldable pub schnorr_verify_bip340 : (pk_ptr sig_ptr msg_ptr msg_len : ℕ) → Vm → Out
schnorr_verify_bip340 pk_ptr sig_ptr msg_ptr msg_len vm =
    done
      (check_three schnorr_verify_impl (slice pk_ptr 32 vm.memory) (slice sig_ptr 64 vm.memory)
        (slice msg_ptr msg_len vm.memory))
      vm

unfoldable pub ed25519_verify : (Bytes → Bytes → Bytes → Bool) → (sl sp ml mp kl kp : ℕ) → Vm → Out
ed25519_verify verify sl sp ml mp kl kp vm = elim (kl == 32) [
  | false ↦ done 0 vm
  | true ↦ elim (sl == 64) [
    | false ↦ done 0 vm
    | true ↦
        done
          (check_three verify (slice kp 32 vm.memory) (slice sp 64 vm.memory)
            (slice mp ml vm.memory))
          vm
  ]
]
