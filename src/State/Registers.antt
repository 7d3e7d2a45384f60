-- ===== src/State/Registers.antt =====
-- state.rs, `write_reg_checked`: the limits of the VM on registers.
use near_mock.Base.{
  ℕ, suc, ◌+◌, ◌-◌, ◌≤◌, ◌<◌, ◌≡◌, ◌≢◌, ◌⊎◌, inl, inr, refl, true, [], ◌∷◌, none, some, Bytes,
  arith, length, ◌==◌, if◌then◌else◌, nat_eq_iff,
}
use near_mock.Base.{ℕ_eq, Option-cases}
use near_mock.Base.Map.{
  Map, lookup, insert, remove, contains_key, IsUnique, insert-IsUnique, lookup-insert,
}
use near_mock.State.{
  MockState, RegisterResult, ok, err, too_large, too_many, memory_limit, max_regs, max_reg_size,
  registers_memory_limit, u64_max, total_len, len_or_zero, reject, write_reg_checked,
}

-- No register is larger than the limit.
abbrev pub AllFit : Map ℕ Bytes → Type 0
AllFit [] = Unit
AllFit ((r, v) ∷ m) = (length v ≤ max_reg_size) × AllFit m

remove-AllFit : (k : ℕ) (m : Map ℕ Bytes) → AllFit m → AllFit (remove k m)
remove-AllFit k [] h = h
remove-AllFit k ((r, v) ∷ m) h = ground (arith, remove-AllFit k m h.1)

total_len-remove :
    (k : ℕ) (m : Map ℕ Bytes)
    → IsUnique m
    → total_len (remove k m) + len_or_zero (lookup k m) ≡ total_len m
total_len-remove k [] u = refl
total_len-remove k ((r, v) ∷ m) u = ground (arith, total_len-remove k m u.1, nat_eq_iff r k)

-- The number of entries under a name other than `u64::MAX`.
abbrev pub counted : Map ℕ Bytes → ℕ
counted [] = 0
counted ((r, v) ∷ m) = if r == u64_max then counted m else suc (counted m)

counted-remove : (k : ℕ) (m : Map ℕ Bytes) → counted (remove k m) ≤ counted m
counted-remove k [] = omega arith
counted-remove k ((r, v) ∷ m) = ground (arith, counted-remove k m)

counted-remove_hit :
    (k : ℕ) (m : Map ℕ Bytes)
    → k ≢ u64_max
    → contains_key k m ≡ true
    → suc (counted (remove k m)) ≤ counted m
counted-remove_hit k [] h e = cc
counted-remove_hit k ((r, v) ∷ m) h e = ground (arith, counted-remove_hit k m h, counted-remove k m)

counted-le-length : (m : Map ℕ Bytes) → counted m ≤ length m
counted-le-length [] = omega arith
counted-le-length ((r, v) ∷ m) = ground (arith, counted-le-length m)

-- The limits: distinct registers, at most 100 besides `u64::MAX`, and both size limits.
pub record IsWithin (m : Map ℕ Bytes) : Type 0 where
  pub unique : IsUnique m
  pub few : counted m ≤ max_regs
  pub fits : AllFit m
  pub total : total_len m ≤ registers_memory_limit

-- The number of registers forbids a new one.
abbrev pub IsCrowded : MockState → ℕ → Type 0
IsCrowded st rid =
    (rid ≢ u64_max) × (lookup rid st.registers ≡ none) × (max_regs ≤ length st.registers)

-- What the other registers and the new value take.
abbrev pub total_with : MockState → ℕ → Bytes → ℕ
total_with st rid v = total_len st.registers - len_or_zero (lookup rid st.registers) + length v

abbrev pub Outcome : MockState → ℕ → Bytes → RegisterResult → Type 0
Outcome st rid v (ok st') =
    IsWithin st'.registers
    × (lookup rid st'.registers ≡ some v)
    × ((j : ℕ) → j ≢ rid → lookup j st'.registers ≡ lookup j st.registers)
    × (st'.storage ≡ st.storage)
    × (length v ≤ max_reg_size)
    × (¬ IsCrowded st rid)
    × (total_with st rid v ≤ registers_memory_limit)
Outcome st rid v (err too_large) = max_reg_size < length v
Outcome st rid v (err too_many) = (length v ≤ max_reg_size) × IsCrowded st rid
Outcome st rid v (err memory_limit) =
    (length v ≤ max_reg_size)
    × (¬ IsCrowded st rid)
    × (registers_memory_limit < total_with st rid v)

-- What a write that is not rejected can rely on.
reject-eq-none :
    (st : MockState) (rid : ℕ) (v : Bytes)
    → reject st rid v ≡ none
    → (length v ≤ max_reg_size)
      × (total_len st.registers - len_or_zero (lookup rid st.registers) + length v
          ≤ registers_memory_limit)
      × ((rid ≡ u64_max)
          ⊎ (contains_key rid st.registers ≡ true)
          ⊎ (suc (length st.registers) ≤ max_regs))
unfolding reject
reject-eq-none st rid v e = ground (arith, nat_eq_iff rid u64_max)

insert-few :
    (rid : ℕ) (m : Map ℕ Bytes)
    → counted m ≤ max_regs
    → (rid ≡ u64_max) ⊎ (contains_key rid m ≡ true) ⊎ (suc (length m) ≤ max_regs)
    → (v : Bytes) → counted (insert rid v m) ≤ max_regs
insert-few rid m h c v =
    ground (arith, counted-remove rid m, counted-remove_hit rid m, counted-le-length m)

insert-IsWithin :
    (st : MockState) (rid : ℕ) (v : Bytes)
    → IsWithin st.registers
    → reject st rid v ≡ none
    → IsWithin (insert rid v st.registers)
insert-IsWithin st rid v w e =
    let (fit, sum, room) = reject-eq-none st rid v e in
    record {
      unique = insert-IsUnique rid v st.registers w.unique;
      few = insert-few rid st.registers w.few room v;
      fits = (fit, remove-AllFit rid st.registers w.fits);
      total = omega (arith, total_len-remove rid st.registers w.unique);
    }

lookup-insert_other :
    (rid j : ℕ) (v : Bytes) (m : Map ℕ Bytes) → j ≢ rid → lookup j (insert rid v m) ≡ lookup j m
lookup-insert_other rid j v m h = ground (arith, lookup-insert rid j v m)

has_room :
    (st : MockState) (rid : ℕ)
    → (rid ≡ u64_max)
      ⊎ (contains_key rid st.registers ≡ true)
      ⊎ (suc (length st.registers) ≤ max_regs)
    → ¬ IsCrowded st rid
has_room st rid room crowded = ground arith

reject_large :
    (st : MockState) (rid : ℕ) (v : Bytes)
    → reject st rid v ≡ some too_large
    → max_reg_size < length v
unfolding reject
reject_large st rid v e = ground arith

reject_many :
    (st : MockState) (rid : ℕ) (v : Bytes)
    → reject st rid v ≡ some too_many
    → (length v ≤ max_reg_size) × IsCrowded st rid
unfolding reject
reject_many st rid v e = ground (arith, nat_eq_iff rid u64_max)

reject_memory :
    (st : MockState) (rid : ℕ) (v : Bytes)
    → reject st rid v ≡ some memory_limit
    → (length v ≤ max_reg_size)
      × ((rid ≡ u64_max)
          ⊎ (contains_key rid st.registers ≡ true)
          ⊎ (suc (length st.registers) ≤ max_regs))
      × (registers_memory_limit < total_with st rid v)
unfolding reject
reject_memory st rid v e = ground (arith, nat_eq_iff rid u64_max)

-- Exactly what a register write does. It succeeds, and then stores the value, leaves the other
-- registers and the storage alone and keeps the registers within the limits; or the value is larger
-- than 100 MiB; or else the register is new and not `u64::MAX` while 100 are in use; or else all
-- values together would exceed 1 GiB. Replacing a register is never refused for their number.
pub write_reg_checked-Outcome :
    (st : MockState) (rid : ℕ) (v : Bytes)
    → IsWithin st.registers
    → Outcome st rid v (write_reg_checked st rid v)
unfolding write_reg_checked
write_reg_checked-Outcome st rid v w = elim (Option-cases (reject st rid v)) [
  | inl e ↦
      let (fit, sum, room) = reject-eq-none st rid v e in
      rw (e, write_reg_checked)
        (
          insert-IsWithin st rid v w e,
          ground (arith, lookup-insert rid rid v st.registers),
          (λ j h. lookup-insert_other rid j v st.registers h),
          refl,
          fit,
          has_room st rid room,
          sum,
        )
  | inr (too_large, e) ↦ rw (e, write_reg_checked) (reject_large st rid v e)
  | inr (too_many, e) ↦ rw (e, write_reg_checked) (reject_many st rid v e)
  | inr (memory_limit, e) ↦
      let (fit, room, over) = reject_memory st rid v e in
      rw (e, write_reg_checked) (fit, has_room st rid room, over)
]
