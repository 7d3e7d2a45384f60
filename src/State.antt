-- ===== src/State.antt =====
-- near_mock/state.rs: the storage of all accounts in one map, the registers of the running call, and
-- the snapshot of one account's partition that a failed receipt is rolled back to.
pub mod Partition
pub mod Registers
pub mod Balance
mod Tests
use near_mock.Base.{
  ℕ, ◌+◌, ◌-◌, ◌^◌, ◌≡◌, Bool, true, false, not, ◌&&◌, List, [], ◌∷◌, ◌++◌, Option, none, some,
  Bytes, length, ltb, leb, ◌==◌, if◌then◌else◌, starts_with, sat_add,
}
use near_mock.Base.{ℕ_eq, bytes_Key}
use near_mock.Base.Map.{Map, lookup, insert, remove, keep_keys, contains_key}

pub record MockState : Type 0 where
  pub storage : Map Bytes Bytes
  pub registers : Map ℕ Bytes
  pub return_data : Option Bytes
  pub view : Bool
  pub touched : List Bytes

unfoldable pub prefixed_key : Bytes → Bytes → Bytes
prefixed_key acct key = acct ++ 1 ∷ key

-- The filter of `snapshot_partition` and `restore_partition`.
unfoldable pub in_partition : Bytes → Bytes → Bool
unfolding prefixed_key
in_partition acct k =
    ltb (length (prefixed_key acct [])) (length k) && starts_with k (prefixed_key acct [])

abbrev pub Snapshot : Type 0
Snapshot = List (Bytes × Option Bytes)

-- `(k.clone(), Some(v.clone()))` for each entry.
clone_entries : Map Bytes Bytes → Snapshot
clone_entries [] = []
clone_entries ((k, v) ∷ m) = (k, some v) ∷ clone_entries m

unfoldable pub snapshot_partition : MockState → Bytes → Snapshot
unfolding clone_entries
snapshot_partition st acct = clone_entries (keep_keys (in_partition acct) st.storage)

insert_entry : Bytes × Option Bytes → Map Bytes Bytes → Map Bytes Bytes
insert_entry (k, none) m = m
insert_entry (k, some v) m = insert k v m

insert_entries : Snapshot → Map Bytes Bytes → Map Bytes Bytes
unfolding insert_entry
insert_entries [] m = m
insert_entries (e ∷ es) m = insert_entries es (insert_entry e m)

unfoldable pub restore_partition : MockState → Snapshot → Bytes → MockState
unfolding insert_entries
restore_partition st snap acct = record st {
  storage = insert_entries snap (keep_keys (λ k. not (in_partition acct k)) st.storage);
}

-- Why a register is not written; the source gives the reason as text.
pub data RegisterError : Type 0 where
  too_large too_many memory_limit : RegisterError

abbrev pub max_regs : ℕ
max_regs = 100

abbrev pub max_reg_size : ℕ
max_reg_size = 104857600

abbrev pub registers_memory_limit : ℕ
registers_memory_limit = 1073741824

abbrev pub u64_max : ℕ
u64_max = 2 ^ 64 - 1

abbrev pub total_len : Map ℕ Bytes → ℕ
total_len [] = 0
total_len ((r, v) ∷ m) = length v + total_len m

abbrev pub len_or_zero : Option Bytes → ℕ
len_or_zero none = 0
len_or_zero (some v) = length v

pub data RegisterResult : Type 0 where
  ok : MockState → RegisterResult
  err : RegisterError → RegisterResult

unfoldable pub new_total : MockState → ℕ → Bytes → ℕ
new_total st rid data_bytes =
    sat_add u64_max (total_len st.registers - len_or_zero (lookup rid st.registers))
      (length data_bytes)

-- The guards, in their order.
unfoldable pub reject : MockState → ℕ → Bytes → Option RegisterError
unfolding new_total
reject st rid data_bytes =
    if ltb max_reg_size (length data_bytes)
    then some too_large
    else if not (rid == u64_max)
        && not (contains_key rid st.registers)
        && leb max_regs (length st.registers)
    then some too_many
    else if ltb registers_memory_limit (new_total st rid data_bytes)
    then some memory_limit
    else none

unfoldable pub write_reg_checked : MockState → ℕ → Bytes → RegisterResult
unfolding reject
write_reg_checked st rid data_bytes = elim (reject st rid data_bytes) [
  | some e ↦ err e
  | none ↦ ok (record st { registers = insert rid data_bytes st.registers })
]
