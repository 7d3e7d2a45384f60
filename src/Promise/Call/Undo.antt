-- ===== src/Promise/Call/Undo.antt =====
-- promises.rs, `sub_execute`: the storage a call starts from and the storage a failed one is taken back to.
use near_mock.Base.{
  ℕ, ◌-◌, ◌<◌, ◌≡◌, ◌≢◌, refl, true, false, Bytes, arith, ltb, lt→ltb, if◌then◌else◌, Bool-cases,
  inl, inr,
}
use near_mock.Base.{bytes_Key, bytes_eq_iff}
use near_mock.Base.Map.{lookup, IsUnique}
use near_mock.State.{in_partition, snapshot_partition, restore_partition}
use near_mock.State.Partition.{IsAccount, in_partition_iff, restore_partition-snapshot_partition}
use near_mock.State.Balance.{
  read_amount, write_amount, read_amount-write_amount, read_amount-lt, lookup-write_amount, bal_key,
  add_u128, read_amount_ext, write_amount-IsUnique,
}
use near_mock.Promise.{World}
use near_mock.Promise.Actions.Laws.{bal_key-distinct, bal_key-injective}
use near_mock.Promise.Call.{enter, move_deposit, undo, prepare}

in_partition_own : (a : Bytes) → IsAccount a → in_partition a (bal_key a) ≡ true
unfolding bal_key
in_partition_own a h = (in_partition_iff a a 0 _ h h).1 refl

pub in_partition_other :
    (a b : Bytes) → IsAccount a → IsAccount b → a ≢ b → in_partition b (bal_key a) ≡ false
unfolding bal_key
in_partition_other a b ha hb differ = elim (Bool-cases (in_partition b (bal_key a))) [
  | inl e ↦ absurd (differ ((in_partition_iff a b 0 _ ha hb).0 e))
  | inr e ↦ e
]

-- The storage after a failed call, by key: the callee's partition as `start` has it, the rest as the
-- callee left it, and the deposit given back to the sender.
undo-lookup :
    (account predecessor k : Bytes) (deposit : ℕ) (start w' : World)
    → IsUnique start.st.storage
    → k ≢ bal_key predecessor
    → lookup k
        (undo account predecessor deposit (snapshot_partition start.st account) w').st.storage
      ≡ (if in_partition account k then lookup k start.st.storage else lookup k w'.st.storage)
unfolding undo
undo-lookup account predecessor k deposit start w' u h =
    let m = (restore_partition w'.st (snapshot_partition start.st account) account).storage in
    let key = bal_key predecessor in
    ground (
      arith,
      restore_partition-snapshot_partition start.st w'.st account k u,
      lookup-write_amount m key k (add_u128 (read_amount m key) deposit),
      bytes_eq_iff key k,
    )

pub undo-lookup_free :
    (account predecessor k : Bytes) (start w' : World)
    → IsUnique start.st.storage
    → lookup k (undo account predecessor 0 (snapshot_partition start.st account) w').st.storage
      ≡ (if in_partition account k then lookup k start.st.storage else lookup k w'.st.storage)
unfolding undo
undo-lookup_free account predecessor k start w' u =
    restore_partition-snapshot_partition start.st w'.st account k u

pub undo-own :
    (account predecessor : Bytes) (deposit : ℕ) (start w' : World)
    → IsUnique start.st.storage
    → IsAccount account
    → IsAccount predecessor
    → predecessor ≢ account
    → lookup
        (bal_key account)
        (undo account predecessor deposit (snapshot_partition start.st account) w').st.storage
      ≡ lookup (bal_key account) start.st.storage
undo-own account predecessor deposit start w' u ha hp differ = ground (
  arith,
  undo-lookup account predecessor (bal_key account) deposit start w' u,
  in_partition_own account ha,
  bal_key-injective account predecessor,
)

pub undo-refund :
    (account predecessor : Bytes) (deposit : ℕ) (start w' : World)
    → IsUnique start.st.storage
    → in_partition account (bal_key predecessor) ≡ false
    → 0 < deposit
    → read_amount
        (undo account predecessor deposit (snapshot_partition start.st account) w').st.storage
        (bal_key predecessor)
      ≡ add_u128 (read_amount w'.st.storage (bal_key predecessor)) deposit
unfolding undo
undo-refund account predecessor deposit start w' u out d =
    let m = (restore_partition w'.st (snapshot_partition start.st account) account).storage in
    let key = bal_key predecessor in
    ground (
      arith,
      lt→ltb 0 deposit d,
      restore_partition-snapshot_partition start.st w'.st account key u,
      read_amount-write_amount m key key (add_u128 (read_amount m key) deposit),
      read_amount_ext m w'.st.storage key key,
      bytes_eq_iff key key,
    )

pub prepare-IsUnique :
    (account args predecessor : Bytes) (deposit : ℕ) (w : World)
    → IsUnique w.st.storage
    → IsUnique (prepare account args predecessor deposit w).st.storage
unfolding prepare move_deposit enter
prepare-IsUnique account args predecessor deposit w u = elim (Bool-cases (ltb 0 deposit)) [
  | inl e ↦
      rw (e, move_deposit) (write_amount-IsUnique _ _ _ (write_amount-IsUnique w.st.storage _ _ u))
  | inr e ↦ rw (e, move_deposit) u
]

pub prepare-credit :
    (account args predecessor : Bytes) (deposit : ℕ) (w : World)
    → predecessor ≢ account
    → 0 < deposit
    → read_amount (prepare account args predecessor deposit w).st.storage (bal_key account)
      ≡ add_u128 (read_amount w.st.storage (bal_key account)) deposit
unfolding prepare move_deposit enter
prepare-credit account args predecessor deposit w differ d =
    let m = w.st.storage in
    let key = bal_key account in
    let credited = write_amount m key (add_u128 (read_amount m key) deposit) in
    let debit_key = bal_key predecessor in
    ground (
      arith,
      lt→ltb 0 deposit d,
      read_amount-write_amount m key key (add_u128 (read_amount m key) deposit),
      read_amount-write_amount credited debit_key key (read_amount credited debit_key - deposit),
      read_amount-lt credited debit_key,
      bal_key-distinct predecessor account differ,
      bytes_eq_iff key key,
    )

pub prepare-free :
    (account args predecessor : Bytes) (w : World)
    → (prepare account args predecessor 0 w).st.storage ≡ w.st.storage
unfolding prepare move_deposit enter
prepare-free account args predecessor w = refl
