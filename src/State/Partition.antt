-- ===== src/State/Partition.antt =====
-- state.rs, `prefixed_key`, `snapshot_partition`, `restore_partition`: the partitions do not
-- overlap, and a restore brings back the whole of one and nothing else.
use near_mock.Base.{
  ℕ, ◌≡◌, ◌≢◌, refl, true, not, [], ◌∷◌, ◌++◌, none, some, Bytes, arith, length-append,
  if◌then◌else◌, starts_with,
}
use near_mock.Base.{bytes_Key, bytes_eq_iff}
use near_mock.Base.Map.{
  Map, lookup, insert, keep_keys, IsUnique, lookup-insert, lookup-keep_keys, keep_keys-IsUnique,
  insert-IsUnique,
}
use near_mock.State.{
  MockState, prefixed_key, in_partition, Snapshot, clone_entries, snapshot_partition, insert_entry,
  insert_entries, restore_partition,
}

-- An account name holds no byte 1, the separator of the keys.
abbrev pub IsAccount : Bytes → Type 0
IsAccount [] = Unit
IsAccount (c ∷ cs) = (c ≢ 1) × IsAccount cs

starts_with-separator :
    (a b ks : Bytes)
    → IsAccount a
    → IsAccount b
    → starts_with (a ++ 1 ∷ ks) (b ++ 1 ∷ []) ≡ true
    → a ≡ b
starts_with-separator [] [] ks ha hb e = refl
starts_with-separator [] (d ∷ b) ks ha hb e = ground arith
starts_with-separator (c ∷ a) [] ks ha hb e = ground arith
starts_with-separator (c ∷ a) (d ∷ b) ks ha hb e =
    ground (arith, starts_with-separator a b ks ha.1 hb.1)

starts_with-prefixed : (a ks : Bytes) → starts_with (a ++ 1 ∷ ks) (a ++ 1 ∷ []) ≡ true
starts_with-prefixed [] ks = refl
starts_with-prefixed (c ∷ a) ks = ground (arith, starts_with-prefixed a ks)

-- A key of account `a` with at least one byte lies in the partition of `b` exactly when `a` is `b`.
pub in_partition_iff :
    (a b : Bytes) (c : ℕ) (ks : Bytes)
    → IsAccount a
    → IsAccount b
    → ((in_partition b (prefixed_key a (c ∷ ks)) ≡ true) → a ≡ b)
      × (a ≡ b → in_partition b (prefixed_key a (c ∷ ks)) ≡ true)
unfolding in_partition
in_partition_iff a b c ks ha hb = (
  (λ e. starts_with-separator a b (c ∷ ks) ha hb (ground arith)),
  (λ e. ground (
    arith,
    e,
    starts_with-prefixed a (c ∷ ks),
    length-append a (1 ∷ c ∷ ks),
    length-append b (1 ∷ []),
    length-append a (1 ∷ []),
  )),
)

insert_entries-clone :
    (es m : Map Bytes Bytes) (k : Bytes)
    → IsUnique es
    → lookup k (insert_entries (clone_entries es) m)
      ≡ elim (lookup k es) [ none ↦ lookup k m | some v ↦ some v ]
unfolding insert_entries insert_entry clone_entries
insert_entries-clone [] m k u = refl
insert_entries-clone ((j, v) ∷ es) m k u =
    ground
      (arith, insert_entries-clone es (insert j v m) k u.1, lookup-insert j k v m, bytes_eq_iff j k)

-- Whatever a receipt did in between, restoring the snapshot brings every key of the account's
-- partition back to its old value, absent keys included, and leaves all other keys alone.
pub restore_partition-snapshot_partition :
    (old new : MockState) (acct k : Bytes)
    → IsUnique old.storage
    → lookup k (restore_partition new (snapshot_partition old acct) acct).storage
      ≡ (if in_partition acct k then lookup k old.storage else lookup k new.storage)
unfolding restore_partition snapshot_partition
restore_partition-snapshot_partition old new acct k u = ground (
  arith,
  insert_entries-clone (keep_keys (in_partition acct) old.storage)
      (keep_keys (λ j. not (in_partition acct j)) new.storage) k
      (keep_keys-IsUnique (in_partition acct) old.storage u),
  lookup-keep_keys (in_partition acct) k old.storage,
  lookup-keep_keys (λ j. not (in_partition acct j)) k new.storage,
)

insert_entries-IsUnique :
    (s : Snapshot) (m : Map Bytes Bytes) → IsUnique m → IsUnique (insert_entries s m)
unfolding insert_entries insert_entry
insert_entries-IsUnique [] m u = u
insert_entries-IsUnique ((k, none) ∷ s) m u = insert_entries-IsUnique s m u
insert_entries-IsUnique ((k, some v) ∷ s) m u =
    insert_entries-IsUnique s (insert k v m) (insert-IsUnique k v m u)

-- A restore keeps the keys of the storage distinct.
pub restore_partition-IsUnique :
    (st : MockState) (s : Snapshot) (acct : Bytes)
    → IsUnique st.storage
    → IsUnique (restore_partition st s acct).storage
unfolding restore_partition
restore_partition-IsUnique st s acct u =
    insert_entries-IsUnique s _ (keep_keys-IsUnique (λ j. not (in_partition acct j)) st.storage u)
