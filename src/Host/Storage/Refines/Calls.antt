-- ===== src/Host/Storage/Refines/Calls.antt =====
-- hosts.rs: each storage function does what its command asks of the store.
use near_mock.Base.{
  ℕ, ◌%◌, ◌≡◌, refl, ap, subst, ◌∙◌, true, false, ◌⊎◌, inl, inr, Option, none, some, Bytes, arith,
  ltb, ◌==◌, Bool-cases, Option-cases,
}
use near_mock.Base.{ℕ_eq, bytes_Key, nat_eq_iff}
use near_mock.Base.Map.{lookup, remove, lookup-insert, lookup-remove}
use near_mock.State.{MockState, prefixed_key, u64_max, write_reg_checked, reject}
use near_mock.Gas.Trie.{trie_charge, trie_charge_write}
use near_mock.Gas.Staking.{RunCfg}
use near_mock.Host.{
  Vm, Out, done, trap, HostError, prohibited_in_view, panicked, Slice, outside, bytes, broken,
  slice, acct_of, charge_gas, write_reg, u64_mod, exec_ctx_view, host_call_base_gas,
}
use near_mock.Host.Storage.{
  storage_of, written, evict, write_entry, storage_write, read_entry, storage_read, removed,
  remove_entry, storage_remove, storage_has_key,
}
use near_mock.Host.Storage.Refines.{
  Store, Command, put, fetch, del, has, key_of, answer, update, wants, store_of, Shows, Fulfils,
  written-Shows, removed-Shows, prefixed_key-eq,
}
use near_mock.Host.Guest.{HostCall, write, read, delete, has_key, perform, host_call}
use near_mock.Host.Guest.{give_value, load_register, size_register, load_input, save_register}

abbrev AnyShows : Bytes → Store → Command → MockState → Type 0
AnyShows acct s c st = Shows acct st s ⊎ Shows acct st (update c s)

abbrev later : ℕ → MockState → Vm → Vm
later g st vm = record vm { gas = g; world = record vm.world { st = st } }

module _ (acct : Bytes) (s : Store) (c : Command) (rid : ℕ) where
  charge_gas-Fulfils :
      (amount : ℕ) (vm : Vm) (rest : Vm → Out)
      → AnyShows acct s c vm.world.st
      → ((g : ℕ) → Fulfils acct s c rid (rest (record vm { gas = g })))
      → Fulfils acct s c rid (charge_gas amount vm rest)
  unfolding charge_gas
  charge_gas-Fulfils amount vm rest h k = elim (Bool-cases (ltb vm.gas (amount % u64_mod))) [
    | inl e ↦ rw (e, charge_gas) h
    | inr e ↦ rw (e, charge_gas) (k _)
  ]

  -- The last step of a call that found a value.
  write_reg-Fulfils :
      (v : Bytes) (vm : Vm)
      → s (key_of c) ≡ some v
      → Shows acct vm.world.st (update c s)
      → Fulfils acct s c rid (write_reg rid v vm (done 1))
  unfolding write_reg write_reg_checked
  write_reg-Fulfils v vm found shows = elim (Option-cases (reject vm.world.st rid v)) [
    | inl e ↦
        rw (e, write_reg, write_reg_checked)
          (
            rw (found, answer) refl,
            shows,
            (λ u want has. ground (
              arith,
              lookup-insert rid rid v vm.world.st.registers,
              nat_eq_iff rid rid,
              found,
              has,
            )),
          )
    | inr (x, e) ↦ rw (e, write_reg, write_reg_checked) (inr shows)
  ]

  -- A call that found no value.
  absent-Fulfils :
      (vm : Vm)
      → s (key_of c) ≡ none
      → Shows acct vm.world.st (update c s)
      → Fulfils acct s c rid (done 0 vm)
  absent-Fulfils vm missing shows =
      (rw (missing, answer) refl, shows, (λ u want has. ground (arith, missing, has)))

  -- A call that found a value which nobody asked for.
  silent-Fulfils :
      (v : Bytes) (vm : Vm)
      → s (key_of c) ≡ some v
      → wants c rid ≡ false
      → Shows acct vm.world.st (update c s)
      → Fulfils acct s c rid (done 1 vm)
  silent-Fulfils v vm found unwanted shows =
      (rw (found, answer) refl, shows, (λ u want has. ground (arith, unwanted, want)))

put-Fulfils :
    (cfg : RunCfg) (rid : ℕ) (raw v : Bytes) (vm : Vm)
    → Fulfils (acct_of vm) (store_of vm) (put raw v) rid (write_entry cfg rid raw v vm)
unfolding write_entry evict
put-Fulfils cfg rid raw v vm =
    charge_gas-Fulfils (acct_of vm) (store_of vm) (put raw v) rid _ vm _ (inl (λ j ne. refl)) (λ g.
      charge_gas-Fulfils (acct_of vm) (store_of vm) (put raw v) rid _ _ _
        (inr (written-Shows (acct_of vm) vm.world.st cfg raw v))
        (λ g'.
          evicted (lookup (prefixed_key (acct_of vm) raw) (storage_of vm)) refl
            (later g' (written cfg (acct_of vm) (prefixed_key (acct_of vm) raw) v vm.world.st) vm)
            (written-Shows (acct_of vm) vm.world.st cfg raw v)))
  where
    evicted :
        (old : Option Bytes)
        → lookup (prefixed_key (acct_of vm) raw) (storage_of vm) ≡ old
        → (vm' : Vm) → Shows (acct_of vm) vm'.world.st (update (put raw v) (store_of vm))
        → Fulfils (acct_of vm) (store_of vm) (put raw v) rid (evict rid old vm')
    evicted none e vm' shows = absent-Fulfils (acct_of vm) (store_of vm) (put raw v) rid vm' e shows
    evicted (some old) e vm' shows = elim (Bool-cases (rid == u64_max)) [
      | inl q ↦
          rw (q, evict)
            (silent-Fulfils (acct_of vm) (store_of vm) (put raw v) rid old vm' e (rw (q) refl)
              shows)
      | inr q ↦
          rw (q, evict)
            (charge_gas-Fulfils (acct_of vm) (store_of vm) (put raw v) rid _ vm' _ (inr shows) (λ g.
              write_reg-Fulfils (acct_of vm) (store_of vm) (put raw v) rid old
                (record vm' { gas = g }) e shows))
    ]

fetch-Fulfils :
    (cfg : RunCfg) (rid : ℕ) (raw : Bytes) (vm : Vm)
    → Fulfils (acct_of vm) (store_of vm) (fetch raw) rid (read_entry cfg rid raw vm)
unfolding read_entry trie_charge
fetch-Fulfils cfg rid raw vm =
    elim (Option-cases (lookup (prefixed_key (acct_of vm) raw) (storage_of vm))) [
      | inl e ↦
          rw (e, read_entry)
            (charge_gas-Fulfils (acct_of vm) (store_of vm) (fetch raw) rid _ _ (done 0)
              (inl (λ j ne. refl))
              (λ g.
                absent-Fulfils (acct_of vm) (store_of vm) (fetch raw) rid
                  (later g (trie_charge cfg.gas (prefixed_key (acct_of vm) raw) vm.world.st).1 vm) e
                  (λ j ne. refl)))
      | inr (v, e) ↦
          rw (e, read_entry)
            (charge_gas-Fulfils (acct_of vm) (store_of vm) (fetch raw) rid _ _ _
              (inl (λ j ne. refl))
              (λ g.
                write_reg-Fulfils (acct_of vm) (store_of vm) (fetch raw) rid v
                  (later g (trie_charge cfg.gas (prefixed_key (acct_of vm) raw) vm.world.st).1 vm) e
                  (λ j ne. refl)))
    ]

-- A key without a value has none after it is removed.
missing-Shows :
    (raw : Bytes) (vm : Vm) (st : MockState)
    → st.storage ≡ remove (prefixed_key (acct_of vm) raw) (storage_of vm)
    → Shows (acct_of vm) st (update (del raw) (store_of vm))
missing-Shows raw vm st e j ne =
    ap (lookup (prefixed_key (acct_of vm) j)) e
    ∙ ground (
      arith,
      lookup-remove (prefixed_key (acct_of vm) raw) (prefixed_key (acct_of vm) j) (storage_of vm),
      prefixed_key-eq (acct_of vm) raw j,
    )

del-Fulfils :
    (cfg : RunCfg) (rid : ℕ) (raw : Bytes) (vm : Vm)
    → Fulfils (acct_of vm) (store_of vm) (del raw) rid (remove_entry cfg rid raw vm)
unfolding remove_entry trie_charge_write
del-Fulfils cfg rid raw vm =
    elim (Option-cases (lookup (prefixed_key (acct_of vm) raw) (storage_of vm))) [
      | inl e ↦
          rw (e, remove_entry)
            (let key = prefixed_key (acct_of vm) raw in
              let st1 =
                (trie_charge_write cfg.gas key
                  (record vm.world.st { storage = remove key (storage_of vm) })).1 in
              absent-Fulfils (acct_of vm) (store_of vm) (del raw) rid (later vm.gas st1 vm) e
                (missing-Shows raw vm st1 refl))
      | inr (v, e) ↦
          rw (e, remove_entry)
            (charge_gas-Fulfils (acct_of vm) (store_of vm) (del raw) rid _ _ _
              (inr (removed-Shows (acct_of vm) vm.world.st cfg raw _))
              (λ g.
                to_register v e
                  (later g (removed cfg (acct_of vm) (prefixed_key (acct_of vm) raw) _ vm.world.st)
                    vm)
                  (removed-Shows (acct_of vm) vm.world.st cfg raw _)))
    ]
  where
    to_register :
        (v : Bytes)
        → lookup (prefixed_key (acct_of vm) raw) (storage_of vm) ≡ some v
        → (vm' : Vm) → Shows (acct_of vm) vm'.world.st (update (del raw) (store_of vm))
        → Fulfils
            (acct_of vm)
            (store_of vm)
            (del raw)
            rid
            (elim (rid == u64_max) [ true ↦ done 1 vm' | false ↦ write_reg rid v vm' (done 1) ])
    to_register v e vm' shows = elim (Bool-cases (rid == u64_max)) [
      | inl q ↦
          rw (q)
            (silent-Fulfils (acct_of vm) (store_of vm) (del raw) rid v vm' e (rw (q) refl) shows)
      | inr q ↦ rw (q) (write_reg-Fulfils (acct_of vm) (store_of vm) (del raw) rid v vm' e shows)
    ]

-- The command of a storage call, and the register it names, where its ranges are in the memory.
abbrev bytes_or_none : Slice → Option Bytes
bytes_or_none outside = none
bytes_or_none broken = none
bytes_or_none (bytes v) = some v

abbrev command : Option Bytes → (Bytes → Command) → ℕ → Option (Command × ℕ)
command none f rid = none
command (some k) f rid = some (f k, rid)

abbrev put_command : Option Bytes → Option Bytes → ℕ → Option (Command × ℕ)
put_command none v rid = none
put_command (some k) none rid = none
put_command (some k) (some v) rid = some (put k v, rid)

abbrev pub command_of : HostCall → Bytes → Option (Command × ℕ)
command_of (write kl kp vl vp rid) md =
    put_command (bytes_or_none (slice kp kl md)) (bytes_or_none (slice vp vl md)) rid
command_of (read kl kp rid) md = command (bytes_or_none (slice kp kl md)) fetch rid
command_of (delete kl kp rid) md = command (bytes_or_none (slice kp kl md)) del rid
command_of (has_key kl kp) md = command (bytes_or_none (slice kp kl md)) has 0
command_of (give_value len ptr) md = none
command_of (load_register rid ptr) md = none
command_of (size_register rid) md = none
command_of (load_input rid) md = none
command_of (save_register len ptr rid) md = none

abbrev OnCommand : Vm → Out → Option (Command × ℕ) → Type 0
OnCommand vm o none = Unit
OnCommand vm o (some (c, rid)) = Fulfils (acct_of vm) (store_of vm) c rid o

on_key :
    (vm : Vm) (s : Slice) (f : Bytes → Command) (rid : ℕ) (next : Bytes → Out)
    → ((k : Bytes) → Fulfils (acct_of vm) (store_of vm) (f k) rid (next k))
    → OnCommand vm
        (elim s [ outside ↦ done 0 vm | broken ↦ trap panicked vm | bytes k ↦ next k ])
        (command (bytes_or_none s) f rid)
on_key vm outside f rid next h = tt
on_key vm broken f rid next h = tt
on_key vm (bytes k) f rid next h = h k

forbidden : (vm : Vm) (e : HostError) (c : Option (Command × ℕ)) → OnCommand vm (trap e vm) c
forbidden vm e none = tt
forbidden vm e (some c) = inl (λ j ne. refl)

perform-OnCommand :
    (cfg : RunCfg) (arg : Bytes) (c : HostCall) (vm : Vm)
    → OnCommand vm (perform cfg arg c vm) (command_of c vm.memory)
unfolding perform storage_write storage_read storage_remove storage_has_key trie_charge
perform-OnCommand cfg arg (write kl kp vl vp rid) vm = elim (Bool-cases (exec_ctx_view vm)) [
  | inl e ↦
      rw (e, storage_write)
        (forbidden vm prohibited_in_view (command_of (write kl kp vl vp rid) vm.memory))
  | inr e ↦ rw (e, storage_write) (go (slice kp kl vm.memory) (slice vp vl vm.memory))
]
  where
    go :
        (s t : Slice)
        → OnCommand vm
            (elim s [
              | outside ↦ done 0 vm
              | broken ↦ elim t [
                | outside ↦ done 0 vm
                | broken ↦ trap panicked vm
                | bytes v ↦ trap panicked vm
              ]
              | bytes raw ↦ elim t [
                | outside ↦ done 0 vm
                | broken ↦ trap panicked vm
                | bytes v ↦ write_entry cfg rid raw v vm
              ]
            ])
            (put_command (bytes_or_none s) (bytes_or_none t) rid)
    go outside t = tt
    go broken t = tt
    go (bytes k) outside = tt
    go (bytes k) broken = tt
    go (bytes k) (bytes v) = put-Fulfils cfg rid k v vm
perform-OnCommand cfg arg (read kl kp rid) vm =
    on_key vm (slice kp kl vm.memory) fetch rid (λ raw. read_entry cfg rid raw vm)
      (λ k. fetch-Fulfils cfg rid k vm)
perform-OnCommand cfg arg (delete kl kp rid) vm = elim (Bool-cases (exec_ctx_view vm)) [
  | inl e ↦
      rw (e, storage_remove)
        (forbidden vm prohibited_in_view (command_of (delete kl kp rid) vm.memory))
  | inr e ↦
      rw (e, storage_remove)
        (on_key vm (slice kp kl vm.memory) del rid (λ raw. remove_entry cfg rid raw vm)
          (λ k. del-Fulfils cfg rid k vm))
]
perform-OnCommand cfg arg (has_key kl kp) vm = on_key vm (slice kp kl vm.memory) has 0 _ (λ k.
    charge_gas-Fulfils (acct_of vm) (store_of vm) (has k) 0 _ _ _ (inl (λ j ne. refl))
      (λ g. (ground (arith), (λ j ne. refl), (λ v want found. ground (arith, want)))))
perform-OnCommand cfg arg (give_value len ptr) vm = tt
perform-OnCommand cfg arg (load_register rid ptr) vm = tt
perform-OnCommand cfg arg (size_register rid) vm = tt
perform-OnCommand cfg arg (load_input rid) vm = tt
perform-OnCommand cfg arg (save_register len ptr rid) vm = tt

-- A storage call whose ranges lie in the memory does what its command asks of the contract's own map
-- from keys to values: its result is 1 exactly where the key had a value, the map afterwards is the
-- updated one, for each key but the balance, and the value that the key had is in the named register,
-- where the call writes it there. A call that traps left the map as it was or updated.
pub host_call-Fulfils :
    (cfg : RunCfg) (arg : Bytes) (c : HostCall) (vm : Vm) (k : Command) (rid : ℕ)
    → command_of c vm.memory ≡ some (k, rid)
    → Fulfils (acct_of vm) (store_of vm) k rid (host_call cfg arg c vm)
unfolding host_call
host_call-Fulfils cfg arg c vm k rid e =
    charge_gas-Fulfils (acct_of vm) (store_of vm) k rid host_call_base_gas vm (perform cfg arg c)
      (inl (λ j ne. refl))
      (λ g.
        subst (OnCommand (record vm { gas = g }) (perform cfg arg c (record vm { gas = g }))) e
          (perform-OnCommand cfg arg c (record vm { gas = g })))
