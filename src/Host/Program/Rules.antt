-- ===== src/Host/Program/Rules.antt =====
-- hosts.rs and mod.rs: what the parts that host functions are made of keep of the state.
use near_mock.Base.{ℕ, ◌%◌, ◌≡◌, refl, Bytes, ltb, Bool-cases, Option-cases, inl, inr}
use near_mock.Base.Utf8.{from_utf8_lossy, from_le_bytes}
use near_mock.State.{MockState, reject, write_reg_checked}
use near_mock.Promise.{World}
use near_mock.Host.{
  Vm, Out, done, trap, memory_access, panicked, Slice, outside, bytes, broken, slice, with_st,
  charge_gas, write_reg, read_str, read_u128, u64_mod,
}
use near_mock.Host.Program.{Along}

-- A property of the state that a call leaves, by a result or a trap.
abbrev pub Holds : (World → Type 0) → Out → Type 0
Holds P (done r vm) = P vm.world
Holds P (trap e vm) = P vm.world

pub Holds-Along :
    (S : World → World → Type 0) (vm : Vm) (o : Out)
    → Holds (S vm.world) o
    → Along (λ a b. S a.world b.world) vm o
Holds-Along S vm (done r vm') h = h
Holds-Along S vm (trap e vm') h = h

pub Along-Holds :
    (S : World → World → Type 0) (vm : Vm) (o : Out)
    → Along (λ a b. S a.world b.world) vm o
    → Holds (S vm.world) o
Along-Holds S vm (done r vm') h = h
Along-Holds S vm (trap e vm') h = h

pub Holds-map : (P Q : World → Type 0) (o : Out) → ((w : World) → P w → Q w) → Holds P o → Holds Q o
Holds-map P Q (done r vm) f h = f vm.world h
Holds-map P Q (trap e vm) f h = f vm.world h

module _ (P : World → Type 0) where
  pub charge_gas-Holds :
      (amount : ℕ) (vm : Vm) (rest : Vm → Out)
      → P vm.world
      → ((g : ℕ) → Holds P (rest (record vm { gas = g })))
      → Holds P (charge_gas amount vm rest)
  unfolding charge_gas
  charge_gas-Holds amount vm rest p h = elim (Bool-cases (ltb vm.gas (amount % u64_mod))) [
    | inl e ↦ rw (e, charge_gas) p
    | inr e ↦ rw (e, charge_gas) (h _)
  ]

  pub on_slice-Holds :
      (s : Slice) (vm : Vm) (o : Out) (next : Bytes → Out)
      → P vm.world
      → Holds P o
      → ((v : Bytes) → Holds P (next v))
      → Holds P (elim s [ outside ↦ o | broken ↦ trap panicked vm | bytes v ↦ next v ])
  on_slice-Holds outside vm o next p q h = q
  on_slice-Holds broken vm o next p q h = p
  on_slice-Holds (bytes v) vm o next p q h = h v

  pub read_str-Holds :
      (len ptr : ℕ) (vm : Vm) (next : Bytes → Out)
      → P vm.world
      → ((v : Bytes) → Holds P (next v))
      → Holds P (read_str len ptr vm next)
  unfolding read_str
  read_str-Holds len ptr vm next p h =
      on_slice-Holds (slice ptr len vm.memory) vm (trap memory_access vm)
        (λ v. next (from_utf8_lossy v)) p p (λ v. h (from_utf8_lossy v))

  pub read_u128-Holds :
      (ptr : ℕ) (vm : Vm) (next : ℕ → Out)
      → P vm.world
      → ((n : ℕ) → Holds P (next n))
      → Holds P (read_u128 ptr vm next)
  unfolding read_u128
  read_u128-Holds ptr vm next p h =
      on_slice-Holds (slice ptr 16 vm.memory) vm (next 0) (λ v. next (from_le_bytes v)) p (h 0)
        (λ v. h (from_le_bytes v))

  pub write_reg-Holds :
      (rid : ℕ) (v : Bytes) (vm : Vm) (rest : Vm → Out)
      → P vm.world
      → ((st : MockState) → st.storage ≡ vm.world.st.storage → Holds P (rest (with_st vm st)))
      → Holds P (write_reg rid v vm rest)
  unfolding write_reg write_reg_checked
  write_reg-Holds rid v vm rest p h = elim (Option-cases (reject vm.world.st rid v)) [
    | inl e ↦ rw (e, write_reg, write_reg_checked) (h _ refl)
    | inr (r, e) ↦ rw (e, write_reg, write_reg_checked) p
  ]
