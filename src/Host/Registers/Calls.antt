-- ===== src/Host/Registers/Calls.antt =====
-- hosts.rs: the register functions reach no entry of the storage.
use near_mock.Base.{ℕ, Bytes, length, Option-cases, inl, inr}
use near_mock.Base.{ℕ_eq}
use near_mock.Base.Map.{lookup}
use near_mock.Gas.Staking.{RunCfg}
use near_mock.Host.{Vm, Out, done, trap, panicked, Slice, outside, bytes, broken, slice}
use near_mock.Host.Storage.Confined.{Reaches, Confined, charge_gas-Confined, write_reg-Confined}
use near_mock.Host.Storage.Calls.{stays}
use near_mock.Host.Registers.{
  value_return, copy_out, read_register, register_len, input, write_register,
}

on_slice-Confined :
    (vm vm1 : Vm) (s : Slice) (next : Bytes → Out)
    → Reaches vm vm1
    → ((v : Bytes) → Confined vm (next v))
    → Confined vm (elim s [ outside ↦ done 0 vm1 | broken ↦ trap panicked vm1 | bytes v ↦ next v ])
on_slice-Confined vm vm1 outside next h k = h
on_slice-Confined vm vm1 broken next h k = h
on_slice-Confined vm vm1 (bytes v) next h k = k v

pub value_return-Confined :
    (cfg : RunCfg) (len ptr : ℕ) (vm : Vm) → Confined vm (value_return cfg len ptr vm)
unfolding value_return
value_return-Confined cfg len ptr vm =
    charge_gas-Confined vm vm _ _ (stays vm)
      (λ vm1 h. on_slice-Confined vm vm1 (slice ptr len vm1.memory) _ h (λ v. h))

copy_out-Confined :
    (vm vm1 : Vm) (ptr : ℕ) (content : Bytes)
    → Reaches vm vm1
    → Confined vm (copy_out ptr content vm1)
unfolding copy_out
copy_out-Confined vm vm1 ptr content h =
    on_slice-Confined vm vm1 (slice ptr (length content) vm1.memory) _ h (λ v. h)

pub read_register-Confined :
    (cfg : RunCfg) (rid ptr : ℕ) (vm : Vm) → Confined vm (read_register cfg rid ptr vm)
unfolding read_register
read_register-Confined cfg rid ptr vm = elim (Option-cases (lookup rid vm.world.st.registers)) [
  | inl e ↦ rw (e, read_register) (stays vm)
  | inr (content, e) ↦
      rw (e, read_register)
        (charge_gas-Confined vm vm _ _ (stays vm) (λ vm1 h. copy_out-Confined vm vm1 ptr content h))
]

pub register_len-Confined : (rid : ℕ) (vm : Vm) → Confined vm (register_len rid vm)
unfolding register_len
register_len-Confined rid vm = charge_gas-Confined vm vm _ _ (stays vm) (λ vm1 h. h)

pub input-Confined :
    (single_input : Bytes) (rid : ℕ) (vm : Vm) → Confined vm (input single_input rid vm)
unfolding input
input-Confined single_input rid vm =
    charge_gas-Confined vm vm _ _ (stays vm)
      (λ vm1 h. write_reg-Confined vm vm1 rid _ (done 0) h (λ vm2 h2. h2))

pub write_register-Confined :
    (len ptr rid : ℕ) (vm : Vm) → Confined vm (write_register len ptr rid vm)
unfolding write_register
write_register-Confined len ptr rid vm = charge_gas-Confined vm vm _ _ (stays vm) (λ vm1 h.
    on_slice-Confined vm vm1 (slice ptr len vm1.memory) _ h
      (λ v. write_reg-Confined vm vm1 rid v (done 0) h (λ vm2 h2. h2)))
