-- ===== src/Host/Guest/Tame.antt =====
-- hosts.rs: the host functions on storage and registers panic only where an address and a length
-- exceed the machine word.
use near_mock.Base.{
  ℕ, ◌+◌, ◌%◌, ◌<◌, ◌≡◌, ◌≢◌, refl, true, false, Option, none, some, Bytes, arith, length, ltb,
  ◌==◌, Option-cases, Bool-cases, inl, inr,
}
use near_mock.Base.{ℕ_eq, bytes_Key}
use near_mock.Base.Map.{lookup}
use near_mock.State.{reject, write_reg_checked, u64_max}
use near_mock.Gas.Staking.{RunCfg}
use near_mock.Gas.Trie.{trie_charge}
use near_mock.Host.{
  Vm, Out, done, trap, panicked, panics, Slice, outside, bytes, broken, slice, charge_gas,
  write_reg, u64_mod, exec_ctx_view, host_call_base_gas,
}
use near_mock.Host.Program.{stop, compute, call, run_program}
use near_mock.Host.Storage.{
  storage_of, full_key, evict, write_entry, storage_write, read_entry, storage_read, remove_entry,
  storage_remove, storage_has_key,
}
use near_mock.Host.Registers.{
  value_return, copy_out, read_register, register_len, input, write_register,
}
use near_mock.Host.Guest.{
  HostCall, write, read, delete, has_key, give_value, load_register, size_register, load_input,
  save_register, Guest, perform, host_call, run,
}

-- A range that ends within the machine word.
abbrev pub Fits : ℕ → ℕ → Type 0
Fits ptr len = ptr + len < u64_mod

-- The ranges of a call end within the machine word, whether or not they lie in the memory.
abbrev pub IsTame : HostCall → Vm → Type 0
IsTame (write kl kp vl vp rid) vm = Fits kp kl × Fits vp vl
IsTame (read kl kp rid) vm = Fits kp kl
IsTame (delete kl kp rid) vm = Fits kp kl
IsTame (has_key kl kp) vm = Fits kp kl
IsTame (give_value len ptr) vm = Fits ptr len
IsTame (load_register rid ptr) vm =
    (v : Bytes) → lookup rid vm.world.st.registers ≡ some v → Fits ptr (length v)
IsTame (size_register rid) vm = Unit
IsTame (load_input rid) vm = Unit
IsTame (save_register len ptr rid) vm = Fits ptr len

charge_gas-fine :
    (amount : ℕ) (vm : Vm) (rest : Vm → Out)
    → ((g : ℕ) → panics (rest (record vm { gas = g })) ≡ false)
    → panics (charge_gas amount vm rest) ≡ false
unfolding charge_gas
charge_gas-fine amount vm rest h = elim (Bool-cases (ltb vm.gas (amount % u64_mod))) [
  | inl e ↦ rw (e, charge_gas) refl
  | inr e ↦ rw (e, charge_gas) (h _)
]

write_reg-fine :
    (rid : ℕ) (v : Bytes) (vm : Vm) (r : ℕ) → panics (write_reg rid v vm (done r)) ≡ false
unfolding write_reg write_reg_checked
write_reg-fine rid v vm r = elim (Option-cases (reject vm.world.st rid v)) [
  | inl e ↦ rw (e, write_reg, write_reg_checked) refl
  | inr (x, e) ↦ rw (e, write_reg, write_reg_checked) refl
]

-- A range that fits is never broken.
slice-ne-broken : (ptr len : ℕ) (memory : Bytes) → Fits ptr len → slice ptr len memory ≢ broken
unfolding slice
slice-ne-broken ptr len memory fits e = ground (arith, e)

on_slice :
    (s : Slice) (vm : Vm) (next : Bytes → Out)
    → s ≢ broken
    → ((v : Bytes) → panics (next v) ≡ false)
    → panics (elim s [ outside ↦ done 0 vm | broken ↦ trap panicked vm | bytes v ↦ next v ]) ≡ false
on_slice outside vm next ne h = refl
on_slice broken vm next ne h = absurd (ne refl)
on_slice (bytes v) vm next ne h = h v

slice-fine :
    (ptr len : ℕ) (memory : Bytes) (vm : Vm) (next : Bytes → Out)
    → Fits ptr len
    → ((v : Bytes) → panics (next v) ≡ false)
    → panics (elim (slice ptr len memory) [
      | outside ↦ done 0 vm
      | broken ↦ trap panicked vm
      | bytes v ↦ next v
    ])
      ≡ false
slice-fine ptr len memory vm next fits h =
    on_slice (slice ptr len memory) vm next (slice-ne-broken ptr len memory fits) h

evict-fine : (rid : ℕ) (old : Option Bytes) (vm : Vm) → panics (evict rid old vm) ≡ false
unfolding evict
evict-fine rid none vm = refl
evict-fine rid (some old) vm = elim (Bool-cases (rid == u64_max)) [
  | inl e ↦ rw (e, evict) refl
  | inr e ↦
      rw (e, evict) (charge_gas-fine _ vm _ (λ g. write_reg-fine rid old (record vm { gas = g }) 1))
]

write_entry-fine :
    (cfg : RunCfg) (rid : ℕ) (raw v : Bytes) (vm : Vm)
    → panics (write_entry cfg rid raw v vm) ≡ false
unfolding write_entry
write_entry-fine cfg rid raw v vm =
    charge_gas-fine _ vm _ (λ g.
      charge_gas-fine _ _ _ (λ g'. evict-fine rid (lookup (full_key vm raw) (storage_of vm)) _))

read_entry-fine :
    (cfg : RunCfg) (rid : ℕ) (raw : Bytes) (vm : Vm) → panics (read_entry cfg rid raw vm) ≡ false
unfolding read_entry trie_charge
read_entry-fine cfg rid raw vm = elim (Option-cases (lookup (full_key vm raw) (storage_of vm))) [
  | inl e ↦ rw (e, read_entry) (charge_gas-fine _ _ (done 0) (λ g. refl))
  | inr (v, e) ↦ rw (e, read_entry) (charge_gas-fine _ _ _ (λ g. write_reg-fine rid v _ 1))
]

remove_entry-fine :
    (cfg : RunCfg) (rid : ℕ) (raw : Bytes) (vm : Vm) → panics (remove_entry cfg rid raw vm) ≡ false
unfolding remove_entry
remove_entry-fine cfg rid raw vm = elim (Option-cases (lookup (full_key vm raw) (storage_of vm))) [
  | inl e ↦ rw (e, remove_entry) refl
  | inr (v, e) ↦ rw (e, remove_entry) (charge_gas-fine _ _ _ (λ g. to_register v _))
]
  where
    to_register :
        (v : Bytes) (vm1 : Vm)
        → panics
            (elim (rid == u64_max) [ true ↦ done 1 vm1 | false ↦ write_reg rid v vm1 (done 1) ])
          ≡ false
    to_register v vm1 = elim (Bool-cases (rid == u64_max)) [
      | inl e ↦ rw (e) refl
      | inr e ↦ rw (e) (write_reg-fine rid v vm1 1)
    ]

storage_write-fine :
    (cfg : RunCfg) (kl kp vl vp rid : ℕ) (vm : Vm)
    → Fits kp kl
    → Fits vp vl
    → panics (storage_write cfg kl kp vl vp rid vm) ≡ false
unfolding storage_write
storage_write-fine cfg kl kp vl vp rid vm k v = elim (Bool-cases (exec_ctx_view vm)) [
  | inl e ↦ rw (e, storage_write) refl
  | inr e ↦
      rw (e, storage_write)
        (go (slice kp kl vm.memory) (slice vp vl vm.memory) (slice-ne-broken kp kl vm.memory k)
          (slice-ne-broken vp vl vm.memory v))
]
  where
    go :
        (s t : Slice)
        → s ≢ broken
        → t ≢ broken
        → panics (elim s [
          | outside ↦ done 0 vm
          | broken ↦ elim t [
            | outside ↦ done 0 vm
            | broken ↦ trap panicked vm
            | bytes v ↦ trap panicked vm
          ]
          | bytes raw ↦ elim t [
            | outside ↦ done 0 vm
            | broken ↦ trap panicked vm
            | bytes v ↦ write_entry cfg rid raw v vm
          ]
        ])
          ≡ false
    go outside t p q = refl
    go broken t p q = absurd (p refl)
    go (bytes raw) outside p q = refl
    go (bytes raw) broken p q = absurd (q refl)
    go (bytes raw) (bytes v) p q = write_entry-fine cfg rid raw v vm

perform-fine :
    (cfg : RunCfg) (arg : Bytes) (c : HostCall) (vm : Vm)
    → IsTame c vm
    → panics (perform cfg arg c vm) ≡ false
unfolding perform storage_read storage_remove storage_has_key value_return read_register
    register_len input write_register copy_out
perform-fine cfg arg (write kl kp vl vp rid) vm (k, v) =
    storage_write-fine cfg kl kp vl vp rid vm k v
perform-fine cfg arg (read kl kp rid) vm k =
    slice-fine kp kl vm.memory vm _ k (λ raw. read_entry-fine cfg rid raw vm)
perform-fine cfg arg (delete kl kp rid) vm k = elim (Bool-cases (exec_ctx_view vm)) [
  | inl e ↦ rw (e, storage_remove) refl
  | inr e ↦
      rw (e, storage_remove)
        (slice-fine kp kl vm.memory vm _ k (λ raw. remove_entry-fine cfg rid raw vm))
]
perform-fine cfg arg (has_key kl kp) vm k =
    slice-fine kp kl vm.memory vm _ k (λ raw. charge_gas-fine _ _ (done _) (λ g. refl))
perform-fine cfg arg (give_value len ptr) vm k =
    charge_gas-fine _ vm _ (λ g. slice-fine ptr len vm.memory _ _ k (λ v. refl))
perform-fine cfg arg (load_register rid ptr) vm k =
    elim (Option-cases (lookup rid vm.world.st.registers)) [
      | inl e ↦ rw (e, read_register) refl
      | inr (v, e) ↦
          rw (e, read_register)
            (charge_gas-fine _ vm (copy_out ptr v)
              (λ g. slice-fine ptr (length v) vm.memory _ _ (k v e) (λ old. refl)))
    ]
perform-fine cfg arg (size_register rid) vm k = charge_gas-fine _ vm (done _) (λ g. refl)
perform-fine cfg arg (load_input rid) vm k =
    charge_gas-fine _ vm _ (λ g. write_reg-fine rid _ (record vm { gas = g }) 0)
perform-fine cfg arg (save_register len ptr rid) vm k =
    charge_gas-fine _ vm _ (λ g.
      slice-fine ptr len vm.memory _ _ k (λ v. write_reg-fine rid v (record vm { gas = g }) 0))

IsTame-gas : (c : HostCall) (vm : Vm) (g : ℕ) → IsTame c vm → IsTame c (record vm { gas = g })
IsTame-gas (write kl kp vl vp rid) vm g k = k
IsTame-gas (read kl kp rid) vm g k = k
IsTame-gas (delete kl kp rid) vm g k = k
IsTame-gas (has_key kl kp) vm g k = k
IsTame-gas (give_value len ptr) vm g k = k
IsTame-gas (load_register rid ptr) vm g k = k
IsTame-gas (size_register rid) vm g k = k
IsTame-gas (load_input rid) vm g k = k
IsTame-gas (save_register len ptr rid) vm g k = k

pub host_call-fine :
    (cfg : RunCfg) (arg : Bytes) (c : HostCall) (vm : Vm)
    → IsTame c vm
    → panics (host_call cfg arg c vm) ≡ false
unfolding host_call
host_call-fine cfg arg c vm k =
    charge_gas-fine host_call_base_gas vm (perform cfg arg c)
      (λ g. perform-fine cfg arg c (record vm { gas = g }) (IsTame-gas c vm g k))

abbrev pub After : (ℕ → Vm → Type 0) → Out → Type 0
After P (done r vm) = P r vm
After P (trap e vm) = Unit

-- Each call that the contract makes from this state on is tame.
abbrev pub Tame : RunCfg → Bytes → Guest → Vm → Type 0
Tame cfg arg stop vm = Unit
Tame cfg arg (compute memory gas g) vm = Tame cfg arg g (record vm { memory = memory; gas = gas })
Tame cfg arg (call c next) vm =
    IsTame c vm × After (λ r vm'. Tame cfg arg (next r vm') vm') (host_call cfg arg c vm)

-- A contract of which no address with a length exceeds the machine word crashes no host function,
-- whatever its memory, its gas and the size of the state: it ends or traps.
pub run-fine :
    (cfg : RunCfg) (arg : Bytes) (g : Guest) (vm : Vm)
    → Tame cfg arg g vm
    → panics (run cfg arg g vm) ≡ false
unfolding run
run-fine cfg arg stop vm t = refl
run-fine cfg arg (compute memory gas g) vm t =
    run-fine cfg arg g (record vm { memory = memory; gas = gas }) t
run-fine cfg arg (call c next) vm (t, later) =
    go (host_call cfg arg c vm) (host_call-fine cfg arg c vm t) later
      (λ r vm'. run-fine cfg arg (next r vm') vm')
  where
    go :
        (o : Out)
        → panics o ≡ false
        → After (λ r vm'. Tame cfg arg (next r vm') vm') o
        → ((r : ℕ) (vm' : Vm)
            → Tame cfg arg (next r vm') vm'
            → panics (run_program (host_call cfg arg) (next r vm') vm') ≡ false)
        → panics (elim o [
          | done r vm' ↦ run_program (host_call cfg arg) (next r vm') vm'
          | trap e vm' ↦ trap e vm'
        ])
          ≡ false
    go (done r vm') h t k = k r vm' t
    go (trap e vm') h t k = h
