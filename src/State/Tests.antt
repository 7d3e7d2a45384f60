-- ===== src/State/Tests.antt =====
-- Runs of state.rs: two accounts whose storage is snapshotted and restored, and a register write.
use near_mock.Base.{◌≡◌, refl, true, false, [], ◌∷◌, Bytes, none, arith, if◌then◌else◌}
use near_mock.Base.{bytes_Key}
use near_mock.Base.Map.{Map, lookup, IsUnique}
use near_mock.State.{
  MockState, prefixed_key, in_partition, snapshot_partition, restore_partition, write_reg_checked,
}
use near_mock.State.Partition.{in_partition_iff, restore_partition-snapshot_partition}
use near_mock.State.Registers.{IsWithin, Outcome, write_reg_checked-Outcome}

abbrev alice : Bytes
alice = 97 ∷ []

-- Account "a" has the entry "k", account "b" the entry "m".
abbrev old_storage : Map Bytes Bytes
old_storage = (97 ∷ 1 ∷ 107 ∷ [], 1 ∷ []) ∷ (98 ∷ 1 ∷ 109 ∷ [], 2 ∷ []) ∷ []

abbrev new_storage : Map Bytes Bytes
new_storage = (97 ∷ 1 ∷ 120 ∷ [], 9 ∷ []) ∷ (98 ∷ 1 ∷ 109 ∷ [], 3 ∷ []) ∷ []

abbrev with_entries : Map Bytes Bytes → MockState
with_entries m = record {
  storage = m;
  registers = [];
  return_data = none;
  view = false;
  touched = [];
}

old_storage-IsUnique : IsUnique old_storage
old_storage-IsUnique = (refl, (refl, tt))

restore_partition-snapshot_partition_example :
    lookup
      (97 ∷ 1 ∷ 107 ∷ [])
      (restore_partition
        (with_entries new_storage)
        (snapshot_partition (with_entries old_storage) alice)
        alice).storage
    ≡ (if in_partition alice (97 ∷ 1 ∷ 107 ∷ [])
        then lookup (97 ∷ 1 ∷ 107 ∷ []) old_storage
        else lookup (97 ∷ 1 ∷ 107 ∷ []) new_storage)
restore_partition-snapshot_partition_example =
    restore_partition-snapshot_partition (with_entries old_storage) (with_entries new_storage) alice
      (97 ∷ 1 ∷ 107 ∷ []) old_storage-IsUnique

in_partition_iff_example :
    ((in_partition (98 ∷ []) (prefixed_key alice (107 ∷ [])) ≡ true) → alice ≡ 98 ∷ [])
    × (alice ≡ 98 ∷ [] → in_partition (98 ∷ []) (prefixed_key alice (107 ∷ [])) ≡ true)
in_partition_iff_example =
    in_partition_iff alice (98 ∷ []) 107 [] (omega arith, tt) (omega arith, tt)

no_registers-IsWithin : IsWithin []
no_registers-IsWithin = record { unique = tt; few = omega arith; fits = tt; total = omega arith }

write_reg_checked-Outcome_example :
    Outcome (with_entries []) 5 (1 ∷ 2 ∷ []) (write_reg_checked (with_entries []) 5 (1 ∷ 2 ∷ []))
write_reg_checked-Outcome_example =
    write_reg_checked-Outcome (with_entries []) 5 (1 ∷ 2 ∷ []) no_registers-IsWithin
