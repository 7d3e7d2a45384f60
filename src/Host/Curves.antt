-- ===== src/Host/Curves.antt =====
-- hosts.rs: the host functions on the curves BLS12-381, alt_bn128, secp256k1 and P-256.
pub mod Calls
use near_mock.Base.{
  ℕ, ◌+◌, ◌*◌, ◌/◌, ◌%◌, Bool, true, false, ◌&&◌, List, [], ◌∷◌, Option, none, some, Bytes, length,
  take, drop, ltb, leb, if◌then◌else◌,
}
use near_mock.Gas.{GasSchedule}
use near_mock.Host.{
  Vm, Out, done, trap, HostError, memory_access, invalid_input, charge_gas, write_reg, u64_mod,
}
use near_mock.Host.Actions.{checked as read_guest_bytes}
use near_mock.Host.Crypto.{bit}
use near_mock.Bls.{Outcome, host_error, refused, accepted}
use near_mock.Bls.Pairing.{BlstAll, Kind, eval, pairing_check}
use near_mock.Bn254.{
  Bn, Decoded, split_elements, g1_sum, g1_multiexp, g1_sum_element_size, g1_multiexp_element_size,
  pairing_check_element_size,
}
use near_mock.CryptoReal.{K256, P256, Recovered, ecrecover, Verified, p256_verify}

-- A refused input is 1, and the register stays as it was.
unfoldable pub bls_result : Outcome Bytes → ℕ → Vm → Out
bls_result (host_error n size) rid vm = trap invalid_input vm
bls_result refused rid vm = done 1 vm
bls_result (accepted out) rid vm = write_reg rid out vm (done 0)

unfoldable pub bls12381 : BlstAll → Kind → (len ptr rid : ℕ) → Vm → Out
unfolding bls_result
bls12381 blst kind len ptr rid vm =
    read_guest_bytes len ptr vm (λ data_bytes. bls_result (eval blst kind data_bytes) rid vm)

unfoldable pub code_result : Outcome ℕ → Vm → Out
code_result (host_error n size) vm = trap invalid_input vm
code_result refused vm = done 1 vm
code_result (accepted code) vm = done code vm

unfoldable pub bls12381_pairing_check : BlstAll → (len ptr : ℕ) → Vm → Out
unfolding code_result
bls12381_pairing_check blst len ptr vm =
    read_guest_bytes len ptr vm
      (λ data_bytes. code_result (pairing_check blst.pairing data_bytes) vm)

-- `.map_err(..)?`
unfoldable pub good {ℓ} : {A : Type ℓ} → Decoded A → Vm → (A → Out) → Out
good (Decoded.err e) vm next = trap invalid_input vm
good (Decoded.ok a) vm next = next a

module _ (bn : Bn) (gas : GasSchedule) where
  -- The bytes, the fee of their elements, and the elements.
  unfoldable pub with_elements :
      (size base element : ℕ) → (len ptr : ℕ) → Vm → (List Bytes → Vm → Out) → Out
  unfolding good
  with_elements size base element len ptr vm next = read_guest_bytes len ptr vm (λ data_bytes.
      charge_gas (base + element * (length data_bytes / size)) vm
        (λ vm1. good (split_elements size data_bytes) vm1 (λ elems. next elems vm1)))

  unfoldable pub alt_bn128_g1_sum : (len ptr rid : ℕ) → Vm → Out
  unfolding with_elements good
  alt_bn128_g1_sum len ptr rid vm =
      with_elements g1_sum_element_size gas.alt_bn128_g1_sum_base gas.alt_bn128_g1_sum_element len
        ptr vm (λ elems vm1. good (g1_sum bn elems) vm1 (λ out. write_reg rid out vm1 (done 0)))

  unfoldable pub alt_bn128_g1_multiexp : (len ptr rid : ℕ) → Vm → Out
  unfolding with_elements good
  alt_bn128_g1_multiexp len ptr rid vm =
      with_elements g1_multiexp_element_size gas.alt_bn128_g1_multiexp_base
        gas.alt_bn128_g1_multiexp_element len ptr vm
        (λ elems vm1. good (g1_multiexp bn elems) vm1 (λ out. write_reg rid out vm1 (done 0)))

  unfoldable pub alt_bn128_pairing_check : (len ptr : ℕ) → Vm → Out
  unfolding with_elements good
  alt_bn128_pairing_check len ptr vm =
      with_elements pairing_check_element_size gas.alt_bn128_pairing_check_base
        gas.alt_bn128_pairing_check_element len ptr vm
        (λ elems vm1.
          good (near_mock.Bn254.pairing_check bn elems) vm1 (λ holds. done (bit holds) vm1))

-- `md.get(ptr..ptr.checked_add(len)?)`
abbrev pub get_range : ℕ → ℕ → Bytes → Option Bytes
get_range len ptr md =
    if ltb (ptr + len) u64_mod && leb (ptr + len) (length md)
    then some (take len (drop ptr md))
    else none

-- `.ok_or(..)?`
unfoldable pub got : Option Bytes → Vm → (Bytes → Out) → Out
got none vm next = trap memory_access vm
got (some v) vm next = next v

unfoldable pub p256_result : Verified → Vm → Out
p256_result (Verified.err e) vm = trap invalid_input vm
p256_result (Verified.ok b) vm = done (bit b) vm

unfoldable pub p256_verify_host : P256 → GasSchedule → (sl sp ml mp kl kp : ℕ) → Vm → Out
unfolding got p256_result
p256_verify_host p256 gas sl sp ml mp kl kp vm = charge_gas gas.p256_verify_base vm (λ vm1.
    got (get_range sl sp vm1.memory) vm1 (λ sig. got (get_range ml mp vm1.memory) vm1 (λ msg.
      got (get_range kl kp vm1.memory) vm1 (λ pk. p256_result (p256_verify p256 sig msg pk) vm1))))

unfoldable pub recover_result : Recovered → ℕ → Vm → Out
recover_result (Recovered.err e) rid vm = trap invalid_input vm
recover_result (Recovered.ok none) rid vm = done 0 vm
recover_result (Recovered.ok (some pk)) rid vm = write_reg rid pk vm (done 1)

-- Of the flag, the lowest bit.
unfoldable pub ecrecover_host : K256 → GasSchedule → (hl hp sl sp v flag rid : ℕ) → Vm → Out
unfolding got recover_result
ecrecover_host k256 gas hl hp sl sp v flag rid vm = charge_gas gas.ecrecover_base vm (λ vm1.
    got (get_range hl hp vm1.memory) vm1 (λ hash.
      got (get_range sl sp vm1.memory) vm1
        (λ sig. recover_result (ecrecover k256 hash sig v (flag % 2)) rid vm1)))
