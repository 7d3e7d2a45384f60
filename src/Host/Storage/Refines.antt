-- ===== src/Host/Storage/Refines.antt =====
-- hosts.rs: the storage functions against what a contract expects, a map from its own keys to values.
pub mod Calls
use near_mock.Base.{
  ℕ, ◌%◌, ◌≡◌, ◌≢◌, refl, sym, ap, subst, ◌∙◌, Bool, true, false, not, [], ◌∷◌, ◌⊎◌, inl, inr,
  Option, none, some, Bytes, arith, ltb, ◌==◌, if◌then◌else◌, Bool-cases, Option-cases,
}
use near_mock.Base.{ℕ_eq, bytes_Key, bytes_eq_iff, nat_eq_iff}
use near_mock.Base.Map.{Map, lookup, insert, contains_key, lookup-insert, lookup-remove}
use near_mock.State.{MockState, prefixed_key, u64_max, write_reg_checked, reject}
use near_mock.State.Balance.{bal_key, near_bal, lookup-write_amount, read_amount}
use near_mock.Gas.Trie.{trie_charge, trie_charge_write}
use near_mock.Gas.Staking.{RunCfg, apply_staking_delta, staked_balance, ℤ}
use near_mock.Host.{
  Vm, Out, done, trap, Slice, outside, bytes, broken, slice, with_st, acct_of, charge_gas,
  write_reg, u64_mod, exec_ctx_view, host_call_base_gas,
}
use near_mock.Host.Storage.{
  storage_of, written, evict, write_entry, storage_write, read_entry, storage_read, removed,
  remove_entry, storage_remove, storage_has_key,
}

abbrev pub Store : Type 0
Store = Bytes → Option Bytes

pub data Command : Type 0 where
  put : (key value : Bytes) → Command
  fetch del has : (key : Bytes) → Command

abbrev pub key_of : Command → Bytes
key_of (put k v) = k
key_of (fetch k) = k
key_of (del k) = k
key_of (has k) = k

-- 1 where the key had a value.
abbrev pub answer : Command → Store → ℕ
answer c s = elim (s (key_of c)) [ none ↦ 0 | some v ↦ 1 ]

abbrev pub update : Command → Store → Store
update (put k v) s j = if k == j then some v else s j
update (fetch k) s j = s j
update (del k) s j = if k == j then none else s j
update (has k) s j = s j

-- Whether the value that the key had goes to a register.
abbrev pub wants : Command → ℕ → Bool
wants (put k v) rid = not (rid == u64_max)
wants (fetch k) rid = true
wants (del k) rid = not (rid == u64_max)
wants (has k) rid = false

abbrev pub store_of : Vm → Store
store_of vm raw = lookup (prefixed_key (acct_of vm) raw) (storage_of vm)

-- The storage holds this store for the account, but for the balance, which is an entry too.
abbrev pub Shows : Bytes → MockState → Store → Type 0
Shows acct st s = (raw : Bytes) → raw ≢ near_bal → lookup (prefixed_key acct raw) st.storage ≡ s raw

-- The call gives the answer, the updated store and the value in its register, or it traps before the
-- update or after it.
abbrev pub Fulfils : Bytes → Store → Command → ℕ → Out → Type 0
Fulfils acct s c rid (done r vm) =
    (r ≡ answer c s)
    × Shows acct vm.world.st (update c s)
    × ((v : Bytes)
        → wants c rid ≡ true
        → s (key_of c) ≡ some v
        → lookup rid vm.world.st.registers ≡ some v)
Fulfils acct s c rid (trap e vm) = Shows acct vm.world.st s ⊎ Shows acct vm.world.st (update c s)

abbrev AnyShows : Bytes → Store → Command → MockState → Type 0
AnyShows acct s c st = Shows acct st s ⊎ Shows acct st (update c s)

prefixed_key-eq : (acct x y : Bytes) → (prefixed_key acct x == prefixed_key acct y) ≡ (x == y)
unfolding prefixed_key
prefixed_key-eq [] x y = ground (arith)
prefixed_key-eq (b ∷ acct) x y = ground (arith, prefixed_key-eq acct x y, nat_eq_iff b b)

apply_staking_delta-Shows :
    (cfg : RunCfg) (acct : Bytes) (d : ℤ) (st : MockState) (raw : Bytes)
    → raw ≢ near_bal
    → lookup (prefixed_key acct raw) (apply_staking_delta cfg acct d st).storage
      ≡ lookup (prefixed_key acct raw) st.storage
unfolding apply_staking_delta bal_key
apply_staking_delta-Shows cfg acct d st raw ne =
    let key = prefixed_key acct near_bal in
    ground (
      arith,
      lookup-write_amount st.storage key (prefixed_key acct raw)
          (staked_balance (read_amount st.storage key) d),
      prefixed_key-eq acct near_bal raw,
      bytes_eq_iff near_bal raw,
      ne,
    )

module _ (acct : Bytes) (st : MockState) where
  abbrev now : Store
  now raw = lookup (prefixed_key acct raw) st.storage

  written-Shows :
      (cfg : RunCfg) (raw v : Bytes)
      → Shows acct (written cfg acct (prefixed_key acct raw) v st) (update (put raw v) now)
  unfolding written trie_charge_write
  written-Shows cfg raw v j ne =
      apply_staking_delta-Shows cfg acct _ _ j ne
      ∙ ground (
        arith,
        lookup-insert (prefixed_key acct raw) (prefixed_key acct j) v st.storage,
        prefixed_key-eq acct raw j,
      )

  removed-Shows :
      (cfg : RunCfg) (raw : Bytes) (freed : ℕ)
      → Shows acct (removed cfg acct (prefixed_key acct raw) freed st) (update (del raw) now)
  unfolding removed trie_charge_write
  removed-Shows cfg raw freed j ne =
      apply_staking_delta-Shows cfg acct _ _ j ne
      ∙ ground (
        arith,
        lookup-remove (prefixed_key acct raw) (prefixed_key acct j) st.storage,
        prefixed_key-eq acct raw j,
      )
