-- ===== src/Host/Program/Contracts.antt =====
-- The code of all accounts as such programs, in the place that `MODULES` and the WebAssembly engine
-- have in promises.rs and mod.rs.
use near_mock.Base.{
  ℕ, ◌≡◌, refl, ap, subst, true, false, Option, none, some, Bytes, Bool-cases, inl, inr,
}
use near_mock.Promise.{World}
use near_mock.Promise.Call.{Ran, no_method, returned, trapped, crashed, Modules}
use near_mock.Promise.Call.Laws.{after, has_crashed}
use near_mock.Host.{Vm, Out, done, trap, HostError, is_panic, panics}
use near_mock.Host.Program.{Program, run_program, Along, run_program-Along}

-- A method: its program, with the memory and the gas it starts with.
pub record Code (C : Type 0) : Type 0 where
  pub program : Program C
  pub memory : Bytes
  pub gas : ℕ

abbrev pub start_of : {C : Type 0} → Code C → World → Vm
start_of c w = record { world = w; memory = c.memory; gas = c.gas }

-- A panic in a host function unwinds through the engine. The text of any other error is looked
-- through for the guest's own line, `extract_panic`.
abbrev pub ran : (HostError → Option Bytes) → Out → Ran
ran line (done r vm) = returned vm.world
ran line (trap e vm) = elim (is_panic e) [
  | true ↦ crashed vm.world
  | false ↦ trapped vm.world (line e)
]

module _ {C : Type 0} (line : HostError → Option Bytes) (handle : World → C → Vm → Out) where
  unfoldable pub execute_code : Option (Code C) → World → Ran
  execute_code none w = no_method w
  execute_code (some c) w = ran line (run_program (handle w) c.program (start_of c w))

  abbrev pub modules_of : (Bytes → Option (Bytes → Option (Code C))) → Modules
  modules_of codes account = elim (codes account) [
    | none ↦ none
    | some by_method ↦ some (λ method w. execute_code (by_method method) w)
  ]

code_or : Option (Bytes → World → Ran) → Bytes → World → Ran
code_or none method w = returned w
code_or (some code) method w = code method w

module _ {C : Type 0} (line : HostError → Option Bytes) (handle : World → C → Vm → Out) where
  -- What holds of each method of each account holds of the modules.
  pub modules_of-each :
      (codes : Bytes → Option (Bytes → Option (Code C))) (P : World → Ran → Type 0)
      → ((account : Bytes) (by_method : Bytes → Option (Code C)) (method : Bytes) (w : World)
          → codes account ≡ some by_method
          → P w (execute_code line handle (by_method method) w))
      → (account : Bytes) (code : Bytes → World → Ran) (method : Bytes) (w : World)
      → modules_of line handle codes account ≡ some code
      → P w (code method w)
  unfolding code_or
  modules_of-each codes P each account code method w e = go (codes account) refl e
    where
      go :
          (c : Option (Bytes → Option (Code C)))
          → codes account ≡ c
          → (elim c [
            | none ↦ none
            | some by_method ↦ some (λ method w. execute_code line handle (by_method method) w)
          ])
            ≡ some code
          → P w (code method w)
      go none k e = cc
      go (some by_method) k e =
          subst (λ (f : Bytes → World → Ran). P w (f method w)) (ap code_or e)
            (each account by_method method w k)

  -- A relation of worlds that each host function keeps, a contract keeps.
  pub execute_code-Leaves :
      (S : World → World → Type 0)
      → ((w : World) → S w w)
      → ((a b c : World) → S a b → S b c → S a c)
      → ((v : World) (c : C) (vm : Vm) → Along (λ a b. S a.world b.world) vm (handle v c vm))
      → (c : Option (Code C)) (w : World) → S w (after (execute_code line handle c w))
  unfolding execute_code
  execute_code-Leaves S S-refl S-trans handled none w = S-refl w
  execute_code-Leaves S S-refl S-trans handled (some c) w =
      go (run_program (handle w) c.program (start_of c w)) (
        run_program-Along (handle w) (λ a b. S a.world b.world) (λ vm memory gas. S-refl vm.world)
          (λ a b c. S-trans a.world b.world c.world) (handled w) c.program (start_of c w))
    where
      go : (o : Out) → Along (λ a b. S a.world b.world) (start_of c w) o → S w (after (ran line o))
      go (done r vm) h = h
      go (trap e vm) h = elim (Bool-cases (is_panic e)) [
        | inl p ↦ rw (p, after) h
        | inr p ↦ rw (p, after) h
      ]

  pub execute_code-safe :
      (c : Option (Code C)) (w : World)
      → ((d : Code C)
          → c ≡ some d
          → panics (run_program (handle w) d.program (start_of d w)) ≡ false)
      → has_crashed (execute_code line handle c w) ≡ false
  unfolding execute_code
  execute_code-safe none w h = refl
  execute_code-safe (some c) w h = go (run_program (handle w) c.program (start_of c w)) (h c refl)
    where
      go : (o : Out) → panics o ≡ false → has_crashed (ran line o) ≡ false
      go (done r vm) h = refl
      go (trap e vm) h = let p : is_panic e ≡ false = h in rw (p, has_crashed) refl
