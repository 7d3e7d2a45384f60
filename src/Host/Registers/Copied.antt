-- ===== src/Host/Registers/Copied.antt =====
-- hosts.rs, `write_register` and `read_register`: bytes of the guest's memory put in a register and
-- copied out again.
use near_mock.Base.{
  ℕ, zero, suc, ◌+◌, ◌-◌, ◌*◌, ◌%◌, ◌≤◌, ◌<◌, ◌≡◌, refl, ap, subst, ◌∙◌, false, [], ◌∷◌, ◌++◌, some,
  Bytes, arith, length, length-append, take, drop, ltb, Option-cases, Bool-cases, inl, inr,
}
use near_mock.Base.{ℕ_eq, nat_eq_iff}
use near_mock.Base.Map.{lookup, lookup-insert}
use near_mock.State.{reject, write_reg_checked}
use near_mock.Gas.Staking.{RunCfg}
use near_mock.Host.{
  Vm, Out, done, trap, bytes, slice, charge_gas, write_reg, u64_mod, write_memory_base_gas,
  write_memory_byte_gas,
}
use near_mock.Host.Registers.{copy_from_slice, copy_out, read_register, write_register}

take_prefix : (n : ℕ) (m ys : Bytes) → n ≤ length m → take n (take n m ++ ys) ≡ take n m
take_prefix zero m ys h = refl
take_prefix (suc n) [] ys h = absurd (ground arith)
take_prefix (suc n) (x ∷ m) ys h = ap (λ r. x ∷ r) (take_prefix n m ys (omega arith))

drop_prefix : (n : ℕ) (m ys : Bytes) → n ≤ length m → drop n (take n m ++ ys) ≡ ys
drop_prefix zero m ys h = refl
drop_prefix (suc n) [] ys h = absurd (ground arith)
drop_prefix (suc n) (x ∷ m) ys h = drop_prefix n m ys (omega arith)

take-append : (xs ys : Bytes) → take (length xs) (xs ++ ys) ≡ xs
take-append [] ys = refl
take-append (x ∷ xs) ys = ap (λ r. x ∷ r) (take-append xs ys)

drop-append : (xs ys : Bytes) → drop (length xs) (xs ++ ys) ≡ ys
drop-append [] ys = refl
drop-append (x ∷ xs) ys = drop-append xs ys

drop_past :
    (n : ℕ) (m v ys : Bytes) → n ≤ length m → drop (n + length v) (take n m ++ (v ++ ys)) ≡ ys
drop_past zero m v ys h = subst (λ k. drop k (v ++ ys) ≡ ys) (start (length v)) (drop-append v ys)
  where
    start : (k : ℕ) → k ≡ zero + k
    start k = omega arith
drop_past (suc n) [] v ys h = absurd (ground arith)
drop_past (suc n) (x ∷ m) v ys h =
    subst (λ k. drop k (x ∷ (take n m ++ (v ++ ys))) ≡ ys) (step n (length v))
      (drop_past n m v ys (omega arith))
  where
    step : (n k : ℕ) → suc (n + k) ≡ suc n + k
    step n k = omega arith

length-drop : (n : ℕ) (m : Bytes) → length (drop n m) ≡ length m - n
length-drop zero m = omega arith
length-drop (suc n) [] = omega arith
length-drop (suc n) (x ∷ m) = omega (arith, length-drop n m)

length-take : (n : ℕ) (m : Bytes) → n ≤ length m → length (take n m) ≡ n
length-take zero m h = refl
length-take (suc n) [] h = absurd (ground arith)
length-take (suc n) (x ∷ m) h = ap suc (length-take n m (omega arith))

length-parts :
    (q : ℕ) (v m : Bytes)
    → q + length v ≤ length m
    → length (take q m ++ (v ++ drop (q + length v) m)) ≡ length m
length-parts q v m h = omega (
  arith,
  length-append (take q m) (v ++ drop (q + length v) m),
  length-append v (drop (q + length v) m),
  length-take q m (omega arith),
  length-drop (q + length v) m,
)

length-copy :
    (q : ℕ) (v m : Bytes) → q + length v ≤ length m → length (copy_from_slice q v m) ≡ length m
unfolding copy_from_slice
length-copy q v m h = length-parts q v m h

-- The memory `m` became `n`: the bytes `v` at `q`, and the rest as it was.
abbrev pub IsCopied : ℕ → Bytes → Bytes → Bytes → Type 0
IsCopied q v m n =
    (slice q (length v) n ≡ bytes v)
    × (length n ≡ length m)
    × (take q n ≡ take q m)
    × (drop (q + length v) n ≡ drop (q + length v) m)

slice-inside :
    (q k : ℕ) (m : Bytes)
    → q + k ≤ length m
    → length m < u64_mod
    → slice q k m ≡ bytes (take k (drop q m))
unfolding slice
slice-inside q k m h b = ground (arith)

copy-IsCopied :
    (q : ℕ) (v m : Bytes)
    → q + length v ≤ length m
    → length m < u64_mod
    → IsCopied q v m (copy_from_slice q v m)
unfolding copy_from_slice
copy-IsCopied q v m h b =
    let rest = drop (q + length v) m in
    let l : q ≤ length m = omega arith in
    (
      slice-inside q (length v) (copy_from_slice q v m) (omega (arith, length-parts q v m h))
            (omega (arith, length-parts q v m h))
          ∙ ap (λ d. bytes (take (length v) d)) (drop_prefix q m (v ++ rest) l)
          ∙ ap bytes (take-append v rest),
      length-parts q v m h,
      take_prefix q m (v ++ rest) l,
      drop_past q m v rest l,
    )

-- What an outcome says of the copy; a trap says nothing true.
abbrev pub Copied : ℕ → Bytes → Vm → Out → Type 0
Copied q v vm (done r vm') = IsCopied q v vm.memory vm'.memory × (vm'.world ≡ vm.world)
Copied q v vm (trap e vm') = ⊥

abbrev pub copy_cost : RunCfg → ℕ → ℕ
copy_cost cfg len =
    cfg.gas.read_register_base
    + cfg.gas.read_register_byte * len
    + write_memory_base_gas
    + write_memory_byte_gas * len

copy_out-Copied :
    (q : ℕ) (v : Bytes) (vm : Vm)
    → q + length v ≤ length vm.memory
    → length vm.memory < u64_mod
    → Copied q v vm (copy_out q v vm)
unfolding copy_out
copy_out-Copied q v vm h b =
    rw (slice-inside q (length v) vm.memory h b, Copied, copy_out)
      (copy-IsCopied q v vm.memory h b, refl)

read_register-Copied :
    (cfg : RunCfg) (rid q : ℕ) (v : Bytes) (vm : Vm)
    → lookup rid vm.world.st.registers ≡ some v
    → copy_cost cfg (length v) % u64_mod ≤ vm.gas
    → q + length v ≤ length vm.memory
    → length vm.memory < u64_mod
    → Copied q v vm (read_register cfg rid q vm)
unfolding read_register charge_gas
read_register-Copied cfg rid q v vm found paid h b =
    let enough : ltb vm.gas (copy_cost cfg (length v) % u64_mod) ≡ false = ground arith in
    rw (found, read_register, Copied)
      (rw (enough, charge_gas, Copied) (copy_out-Copied q v (record vm { gas = _ }) h b))

-- An outcome that is no trap: the register holds the bytes, and the memory is as it was.
abbrev Stored : ℕ → Bytes → Bytes → Out → Type 0
Stored rid v memory (done r vm) = (lookup rid vm.world.st.registers ≡ some v) × (vm.memory ≡ memory)
Stored rid v memory (trap e vm) = Unit

write_reg-Stored :
    (rid : ℕ) (v : Bytes) (vm : Vm) → Stored rid v vm.memory (write_reg rid v vm (done 0))
unfolding write_reg write_reg_checked
write_reg-Stored rid v vm = elim (Option-cases (reject vm.world.st rid v)) [
  | inl e ↦
      rw (e, write_reg, write_reg_checked)
        (ground (arith, lookup-insert rid rid v vm.world.st.registers, nat_eq_iff rid rid), refl)
  | inr (r, e) ↦ rw (e, write_reg, write_reg_checked) tt
]

charge_gas-Stored :
    (rid : ℕ) (v memory : Bytes) (vm : Vm) (amount : ℕ) (rest : Vm → Out)
    → ((g : ℕ) → Stored rid v memory (rest (record vm { gas = g })))
    → Stored rid v memory (charge_gas amount vm rest)
unfolding charge_gas
charge_gas-Stored rid v memory vm amount rest h =
    elim (Bool-cases (ltb vm.gas (amount % u64_mod))) [
      | inl f ↦ rw (f, charge_gas) tt
      | inr f ↦ rw (f, charge_gas) (h _)
    ]

write_register-Stored :
    (len ptr rid : ℕ) (v : Bytes) (vm : Vm)
    → slice ptr len vm.memory ≡ bytes v
    → Stored rid v vm.memory (write_register len ptr rid vm)
unfolding write_register
write_register-Stored len ptr rid v vm e =
    charge_gas-Stored rid v vm.memory vm _ _
      (λ g. rw (e, Stored) (write_reg-Stored rid v (record vm { gas = g })))

-- Bytes of its memory that a guest puts in a register are what it reads back from it, to wherever in
-- its memory they fit: the call does not trap and changes nothing else, if the gas is enough.
pub write_register-read_register :
    (cfg : RunCfg) (len ptr rid q r : ℕ) (v : Bytes) (vm vm1 : Vm)
    → slice ptr len vm.memory ≡ bytes v
    → write_register len ptr rid vm ≡ done r vm1
    → copy_cost cfg (length v) % u64_mod ≤ vm1.gas
    → q + length v ≤ length vm.memory
    → length vm.memory < u64_mod
    → Copied q v vm1 (read_register cfg rid q vm1)
write_register-read_register cfg len ptr rid q r v vm vm1 source stored paid h b =
    let (found, same) =
      subst (Stored rid v vm.memory) stored (write_register-Stored len ptr rid v vm source) in
    let size : length vm1.memory ≡ length vm.memory = ap length same in
    read_register-Copied cfg rid q v vm1 found paid (omega arith) (omega arith)
