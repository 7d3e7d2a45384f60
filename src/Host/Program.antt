-- ===== src/Host/Program.antt =====
-- A contract as a tree of calls of host functions, over any set of calls.
pub mod Rules
pub mod Contracts
use near_mock.Base.{ℕ, Bytes}
use near_mock.Host.{Vm, Out, done, trap}

-- A contract stops, changes its memory and gas, or calls a host function and goes on with what it
-- sees after it. Between two calls WebAssembly instructions do nothing else.
pub data Program (C : Type 0) : Type 0 where
  stop : Program C
  compute : (memory : Bytes) (gas : ℕ) → Program C → Program C
  call : C → (ℕ → Vm → Program C) → Program C

-- A relation from the state of a call to the one it leaves, by a result or a trap.
abbrev pub Along : (Vm → Vm → Type 0) → Vm → Out → Type 0
Along R vm (done r vm') = R vm vm'
Along R vm (trap e vm') = R vm vm'

module _ {C : Type 0} (handle : C → Vm → Out) where
  unfoldable pub run_program : Program C → Vm → Out
  run_program stop vm = done 0 vm
  run_program (compute memory gas p) vm = run_program p (record vm { memory = memory; gas = gas })
  run_program (call c next) vm = elim (handle c vm) [
    | done r vm' ↦ run_program (next r vm') vm'
    | trap e vm' ↦ trap e vm'
  ]

  module _ (R : Vm → Vm → Type 0)
      (touched : (vm : Vm) (memory : Bytes) (gas : ℕ)
        → R vm (record vm { memory = memory; gas = gas }))
      (R-trans : (a b c : Vm) → R a b → R b c → R a c)
      (handled : (c : C) (vm : Vm) → Along R vm (handle c vm)) where
    Along-trans : (a b : Vm) (r : Out) → R a b → Along R b r → Along R a r
    Along-trans a b (done n c) h k = R-trans a b c h k
    Along-trans a b (trap e c) h k = R-trans a b c h k

    -- What each call keeps, all calls of a contract keep.
    pub run_program-Along : (p : Program C) (vm : Vm) → Along R vm (run_program p vm)
    unfolding run_program
    run_program-Along stop vm = touched vm vm.memory vm.gas
    run_program-Along (compute memory gas p) vm =
        Along-trans vm (record vm { memory = memory; gas = gas }) _ (touched vm memory gas)
          (run_program-Along p (record vm { memory = memory; gas = gas }))
    run_program-Along (call c next) vm =
        go (handle c vm) (handled c vm) (λ r vm'. run_program-Along (next r vm') vm')
      where
        go :
            (o : Out)
            → Along R vm o
            → ((r : ℕ) (vm' : Vm) → Along R vm' (run_program (next r vm') vm'))
            → Along R vm
                (elim o [ done r vm' ↦ run_program (next r vm') vm' | trap e vm' ↦ trap e vm' ])
        go (done r vm') h k = Along-trans vm vm' (run_program (next r vm') vm') h (k r vm')
        go (trap e vm') h k = h
