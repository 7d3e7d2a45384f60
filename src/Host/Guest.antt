-- ===== src/Host/Guest.antt =====
-- A contract as a tree of calls of the storage and register functions: what any such contract can and cannot do.
pub mod Tame
pub mod Atomic
use near_mock.Base.{
  ℕ, ◌≡◌, refl, sym, ap, ◌∙◌, subst, Bool, true, false, List, Option, none, some, Bytes,
  if◌then◌else◌,
}
use near_mock.Gas.Staking.{RunCfg}
use near_mock.Promise.{World, contract_of}
use near_mock.Promise.Call.{Ran, returned, trapped, Modules}
use near_mock.Promise.Call.Laws.{after}
use near_mock.Host.{Vm, Out, done, trap, acct_of, charge_gas, host_fn, host_call_base_gas}
use near_mock.Host.Program.{Program, run_program, Along, run_program-Along}
use near_mock.Host.Storage.{
  storage_of, storage_write, storage_read, storage_remove, storage_has_key,
}
use near_mock.Host.Registers.{value_return, read_register, register_len, input, write_register}
use near_mock.Host.Registers.Calls.{
  value_return-Confined, read_register-Confined, register_len-Confined, input-Confined,
  write_register-Confined,
}
use near_mock.Host.Storage.Confined.{SameOutside, frame, Reaches, Confined, charge_gas-Confined}
use near_mock.Host.Storage.Calls.{
  stays, storage_write-Confined, storage_read-Confined, storage_remove-Confined,
  storage_has_key-Confined,
}

pub data HostCall : Type 0 where
  write : (kl kp vl vp rid : ℕ) → HostCall
  read : (kl kp rid : ℕ) → HostCall
  delete : (kl kp rid : ℕ) → HostCall
  has_key : (kl kp : ℕ) → HostCall
  give_value : (len ptr : ℕ) → HostCall
  load_register : (rid ptr : ℕ) → HostCall
  size_register : (rid : ℕ) → HostCall
  load_input : (rid : ℕ) → HostCall
  save_register : (len ptr rid : ℕ) → HostCall

abbrev pub Guest : Type 0
Guest = Program HostCall

unfoldable pub perform : RunCfg → Bytes → HostCall → Vm → Out
perform cfg arg (write kl kp vl vp rid) vm = storage_write cfg kl kp vl vp rid vm
perform cfg arg (read kl kp rid) vm = storage_read cfg kl kp rid vm
perform cfg arg (delete kl kp rid) vm = storage_remove cfg kl kp rid vm
perform cfg arg (has_key kl kp) vm = storage_has_key cfg kl kp vm
perform cfg arg (give_value len ptr) vm = value_return cfg len ptr vm
perform cfg arg (load_register rid ptr) vm = read_register cfg rid ptr vm
perform cfg arg (size_register rid) vm = register_len rid vm
perform cfg arg (load_input rid) vm = input arg rid vm
perform cfg arg (save_register len ptr rid) vm = write_register len ptr rid vm

unfoldable pub host_call : RunCfg → Bytes → HostCall → Vm → Out
unfolding perform
host_call cfg arg c vm = host_fn (perform cfg arg c) vm

unfoldable pub run : RunCfg → Bytes → Guest → Vm → Out
unfolding host_call run_program
run cfg arg g vm = run_program (host_call cfg arg) g vm

pub perform-Confined :
    (cfg : RunCfg) (arg : Bytes) (c : HostCall) (vm : Vm) → Confined vm (perform cfg arg c vm)
unfolding perform
perform-Confined cfg arg (write kl kp vl vp rid) vm = storage_write-Confined cfg kl kp vl vp rid vm
perform-Confined cfg arg (read kl kp rid) vm = storage_read-Confined cfg kl kp rid vm
perform-Confined cfg arg (delete kl kp rid) vm = storage_remove-Confined cfg kl kp rid vm
perform-Confined cfg arg (has_key kl kp) vm = storage_has_key-Confined cfg kl kp vm
perform-Confined cfg arg (give_value len ptr) vm = value_return-Confined cfg len ptr vm
perform-Confined cfg arg (load_register rid ptr) vm = read_register-Confined cfg rid ptr vm
perform-Confined cfg arg (size_register rid) vm = register_len-Confined rid vm
perform-Confined cfg arg (load_input rid) vm = input-Confined arg rid vm
perform-Confined cfg arg (save_register len ptr rid) vm = write_register-Confined len ptr rid vm

same_acct : (a b : Vm) → frame b.world ≡ frame a.world → acct_of b ≡ acct_of a
same_acct a b e = ap (λ f. contract_of f.0) e

Reaches-trans : (a b c : Vm) → Reaches a b → Reaches b c → Reaches a c
Reaches-trans a b c h k =
    let later =
      subst (λ acct. SameOutside acct (storage_of b) (storage_of c)) (same_acct a b h.1) k.0 in
    ((λ key out. later key out ∙ h.0 key out), k.1 ∙ h.1)

Confined-trans : (a b : Vm) (r : Out) → Reaches a b → Confined b r → Confined a r
Confined-trans a b (done n c) h k = Reaches-trans a b c h k
Confined-trans a b (trap e c) h k = Reaches-trans a b c h k

pub host_call-Confined :
    (cfg : RunCfg) (arg : Bytes) (c : HostCall) (vm : Vm) → Confined vm (host_call cfg arg c vm)
unfolding host_call
host_call-Confined cfg arg c vm =
    charge_gas-Confined vm vm _ (perform cfg arg c) (stays vm)
      (λ vm1 h. Confined-trans vm vm1 (perform cfg arg c vm1) h (perform-Confined cfg arg c vm1))

-- Whatever calls of the storage and register functions a contract makes, with whatever arguments and
-- memory, and whether it ends or traps: no entry of another account changes, nor does the DAG, the
-- memory of receipts or the context.
pub run-Confined :
    (cfg : RunCfg) (arg : Bytes) (g : Guest) (vm : Vm) → Confined vm (run cfg arg g vm)
unfolding run
run-Confined cfg arg g vm =
    run_program-Along (host_call cfg arg) Reaches (λ a memory gas. stays a) Reaches-trans
      (host_call-Confined cfg arg) g vm
