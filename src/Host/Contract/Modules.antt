-- ===== src/Host/Contract/Modules.antt =====
-- promises.rs, mod.rs: the code of all accounts as programs that call any of the host functions.
use near_mock.Base.{◌≡◌, Option, Bytes, ap}
use near_mock.Promise.{World}
use near_mock.Promise.Call.{Modules}
use near_mock.Promise.Call.Laws.{after, KeepsMemo}
use near_mock.Host.{HostError}
use near_mock.Host.Guest.Atomic.{input_of}
use near_mock.Host.Program.Contracts.{
  Code, execute_code, modules_of, modules_of-each, execute_code-Leaves,
}
use near_mock.Host.Program.Rules.{Holds-Along}
use near_mock.Host.Promises.Grows.{Grows, Grows-refl, Grows-trans}
use near_mock.Host.Contract.{Setup, Call, full_call}
use near_mock.Host.Contract.Grown.{full_call-Grows}

module _ (line : HostError → Option Bytes) (s : Setup) where
  abbrev pub contract_modules : (Bytes → Option (Bytes → Option (Code Call))) → Modules
  contract_modules codes = modules_of line (λ v. full_call s (input_of v)) codes

  -- Whatever host functions of `Call` a contract calls, which are all modelled ones but
  -- `promise_yield_resume`, those that schedule promises, add actions, log or compute digests among
  -- them, with whatever arguments, and whether it ends, traps or crashes: no
  -- entry of another account changes but for handles of yields, no batch of the DAG is lost or gets
  -- other dependencies, and the memory of receipts, the context, the results it sees and the queue
  -- stay as they were.
  pub execute_code-Grows :
      (c : Option (Code Call)) (w : World)
      → Grows w (after (execute_code line (λ v. full_call s (input_of v)) c w))
  execute_code-Grows c w =
      execute_code-Leaves line (λ v. full_call s (input_of v)) Grows Grows-refl Grows-trans
        (λ v c vm.
          Holds-Along Grows vm (full_call s (input_of v) c vm)
            (full_call-Grows s (input_of v) c vm))
        c w

  -- Contracts have no access to the memory of receipts.
  pub contract_modules-KeepsMemo :
      (codes : Bytes → Option (Bytes → Option (Code Call))) → KeepsMemo (contract_modules codes)
  contract_modules-KeepsMemo codes account code method w e =
      modules_of-each line (λ v. full_call s (input_of v)) codes
        (λ w r. ((after r).outcomes ≡ w.outcomes) × ((after r).executed ≡ w.executed))
        (λ account by_method method w k.
          let grown = execute_code-Grows (by_method method) w in
          (ap (λ f. f.1) grown.1, ap (λ f. f.2) grown.1))
        account code method w e
