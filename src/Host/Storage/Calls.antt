-- ===== src/Host/Storage/Calls.antt =====
-- hosts.rs: each storage function reaches no entry but those of the running contract's account.
use near_mock.Base.{
  ℕ, ◌≡◌, refl, ◌∙◌, Bool, true, false, Option, none, some, Bytes, ◌==◌, Bool-cases, Option-cases,
  inl, inr,
}
use near_mock.Base.{ℕ_eq, bytes_Key}
use near_mock.Base.Map.{lookup}
use near_mock.State.{u64_max}
use near_mock.Gas.Trie.{touch, trie_charge, trie_charge_write}
use near_mock.Gas.Staking.{RunCfg}
use near_mock.Host.{
  Vm, done, trap, prohibited_in_view, panicked, Slice, outside, bytes, broken, slice, with_st,
  acct_of, exec_ctx_view, write_reg,
}
use near_mock.Host.Storage.{
  storage_of, evict, write_entry, storage_write, read_entry, storage_read, remove_entry,
  storage_remove, storage_has_key, full_key,
}
use near_mock.Host.Storage.Confined.{
  Reaches, Confined, written-SameOutside, remove-SameOutside, removed-SameOutside,
  charge_gas-Confined, write_reg-Confined,
}

evict-Confined :
    (vm vm1 : Vm) (rid : ℕ) (old : Option Bytes) → Reaches vm vm1 → Confined vm (evict rid old vm1)
unfolding evict
evict-Confined vm vm1 rid none h = h
evict-Confined vm vm1 rid (some old) h = elim (Bool-cases (rid == u64_max)) [
  | inl e ↦ rw (e, evict) h
  | inr e ↦
      rw (e, evict)
        (charge_gas-Confined vm vm1 _ _ h
          (λ vm2 h2. write_reg-Confined vm vm2 rid old (done 1) h2 (λ vm3 h3. h3)))
]

write_entry-Confined :
    (cfg : RunCfg) (rid : ℕ) (raw v : Bytes) (vm : Vm) → Confined vm (write_entry cfg rid raw v vm)
unfolding write_entry
write_entry-Confined cfg rid raw v vm =
    charge_gas-Confined vm vm _ _ ((λ k out. refl), refl)
      (λ vm1 h1.
        charge_gas-Confined vm (with_st vm1 _) _ _
          (
            (λ k out. written-SameOutside cfg (acct_of vm) raw v vm1.world.st k out ∙ h1.0 k out),
            h1.1,
          )
          (λ vm2 h2. evict-Confined vm vm2 rid _ h2))

pub stays : (vm : Vm) → Reaches vm vm
stays vm = ((λ k out. refl), refl)

pub storage_write-Confined :
    (cfg : RunCfg) (kl kp vl vp rid : ℕ) (vm : Vm)
    → Confined vm (storage_write cfg kl kp vl vp rid vm)
unfolding storage_write
storage_write-Confined cfg kl kp vl vp rid vm =
    go (exec_ctx_view vm) (slice kp kl vm.memory) (slice vp vl vm.memory)
  where
    go :
        (view : Bool) (key value : Slice)
        → Confined vm (elim view [
          | true ↦ trap prohibited_in_view vm
          | false ↦ elim key [
            | outside ↦ done 0 vm
            | broken ↦ elim value [
              | outside ↦ done 0 vm
              | broken ↦ trap panicked vm
              | bytes v ↦ trap panicked vm
            ]
            | bytes raw ↦ elim value [
              | outside ↦ done 0 vm
              | broken ↦ trap panicked vm
              | bytes v ↦ write_entry cfg rid raw v vm
            ]
          ]
        ])
    go true key value = stays vm
    go false outside value = stays vm
    go false broken outside = stays vm
    go false broken broken = stays vm
    go false broken (bytes v) = stays vm
    go false (bytes raw) outside = stays vm
    go false (bytes raw) broken = stays vm
    go false (bytes raw) (bytes v) = write_entry-Confined cfg rid raw v vm

read_entry-Confined :
    (cfg : RunCfg) (rid : ℕ) (raw : Bytes) (vm : Vm) → Confined vm (read_entry cfg rid raw vm)
unfolding read_entry trie_charge
read_entry-Confined cfg rid raw vm =
    elim (Option-cases (lookup (full_key vm raw) (storage_of vm))) [
      | inl e ↦
          rw (e, read_entry)
            (charge_gas-Confined vm (with_st vm (touch _ vm.world.st)) _ _ (stays vm)
              (λ vm2 h2. h2))
      | inr (v, e) ↦
          rw (e, read_entry)
            (charge_gas-Confined vm (with_st vm (touch _ vm.world.st)) _ _ (stays vm)
              (λ vm2 h2. write_reg-Confined vm vm2 rid v (done 1) h2 (λ vm3 h3. h3)))
    ]

pub storage_read-Confined :
    (cfg : RunCfg) (kl kp rid : ℕ) (vm : Vm) → Confined vm (storage_read cfg kl kp rid vm)
unfolding storage_read
storage_read-Confined cfg kl kp rid vm = go (slice kp kl vm.memory)
  where
    go :
        (key : Slice)
        → Confined vm (elim key [
          | outside ↦ done 0 vm
          | broken ↦ trap panicked vm
          | bytes raw ↦ read_entry cfg rid raw vm
        ])
    go outside = stays vm
    go broken = stays vm
    go (bytes raw) = read_entry-Confined cfg rid raw vm

remove_entry-Confined :
    (cfg : RunCfg) (rid : ℕ) (raw : Bytes) (vm : Vm) → Confined vm (remove_entry cfg rid raw vm)
unfolding remove_entry trie_charge_write
remove_entry-Confined cfg rid raw vm =
    elim (Option-cases (lookup (full_key vm raw) (storage_of vm))) [
      | inl e ↦
          rw (e, remove_entry)
            ((λ k out. remove-SameOutside (acct_of vm) raw (storage_of vm) k out), refl)
      | inr (v, e) ↦
          rw (e, remove_entry)
            (charge_gas-Confined vm _ _ _
              ((λ k out. removed-SameOutside cfg (acct_of vm) raw _ vm.world.st k out), refl)
              (λ vm2 h2. to_register v vm2 h2))
    ]
  where
    to_register :
        (v : Bytes) (vm2 : Vm)
        → Reaches vm vm2
        → Confined vm
            (elim (rid == u64_max) [ true ↦ done 1 vm2 | false ↦ write_reg rid v vm2 (done 1) ])
    to_register v vm2 h2 = elim (Bool-cases (rid == u64_max)) [
      | inl e ↦ rw (e) h2
      | inr e ↦ rw (e) (write_reg-Confined vm vm2 rid v (done 1) h2 (λ vm3 h3. h3))
    ]

pub storage_remove-Confined :
    (cfg : RunCfg) (kl kp rid : ℕ) (vm : Vm) → Confined vm (storage_remove cfg kl kp rid vm)
unfolding storage_remove
storage_remove-Confined cfg kl kp rid vm = go (exec_ctx_view vm) (slice kp kl vm.memory)
  where
    go :
        (view : Bool) (key : Slice)
        → Confined vm (elim view [
          | true ↦ trap prohibited_in_view vm
          | false ↦ elim key [
            | outside ↦ done 0 vm
            | broken ↦ trap panicked vm
            | bytes raw ↦ remove_entry cfg rid raw vm
          ]
        ])
    go true key = stays vm
    go false outside = stays vm
    go false broken = stays vm
    go false (bytes raw) = remove_entry-Confined cfg rid raw vm

pub storage_has_key-Confined :
    (cfg : RunCfg) (kl kp : ℕ) (vm : Vm) → Confined vm (storage_has_key cfg kl kp vm)
unfolding storage_has_key trie_charge
storage_has_key-Confined cfg kl kp vm = go (slice kp kl vm.memory) refl
  where
    go : (key : Slice) → slice kp kl vm.memory ≡ key → Confined vm (storage_has_key cfg kl kp vm)
    go outside e = rw (e, storage_has_key) (stays vm)
    go broken e = rw (e, storage_has_key) (stays vm)
    go (bytes raw) e =
        rw (e, storage_has_key)
          (charge_gas-Confined vm (with_st vm (touch _ vm.world.st)) _ _ (stays vm) (λ vm2 h2. h2))
