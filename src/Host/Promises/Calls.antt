-- ===== src/Host/Promises/Calls.antt =====
-- mod.rs, `build_promise_hosts`: each of its functions keeps what Host/Promises/Grows says.
use near_mock.Base.{
  ℕ, ◌≡◌, refl, ap, false, List, [], ◌∷◌, ◌++◌, Option, none, some, Bytes, arith, length, get_elem?,
  starts_with, starts_with-append, Option-cases, inl, inr,
}
use near_mock.Base.{ℕ_eq, bytes_Key, bytes_eq_iff}
use near_mock.Base.Map.{lookup, insert, lookup-insert}
use near_mock.Base.Decimal.{to_string}
use near_mock.State.{write_reg_checked, reject}
use near_mock.Promise.{PAction, fn_call, transfer, PromiseBatch, World, contract_of, dag_push}
use near_mock.Host.{Vm, done, trap, panicked}
use near_mock.Host.Program.Rules.{Holds, charge_gas-Holds, read_str-Holds, read_u128-Holds}
use near_mock.Host.Promises.{
  add_action, with_action, push, promise_batch_create, promise_batch_then,
  promise_batch_action_function_call, promise_batch_action_transfer, promise_create, promise_then,
  read_deps, promise_and, promise_results_count, store_result, promise_result, promise_return,
  yield_prefix, yield_spec, with_yield, promise_yield_create,
}
use near_mock.Host.Promises.Grows.{
  Grows, GrowsQuietly, GrowsQuietly-refl, Grows-refl, Extends-append, Extends-add_action,
}

with_dag : (w : World) (dag : List PromiseBatch) → GrowsQuietly w (record w { dag = w.dag ++ dag })
with_dag w dag = (((λ k out y. refl), refl, Extends-append w.dag dag), (λ p. p))

push-Grows :
    (w : World) (deps : List ℕ) (account : Bytes) (actions : List PAction) (vm : Vm)
    → vm.world ≡ w
    → Holds (GrowsQuietly w) (push deps account actions vm)
unfolding dag_push
push-Grows w deps account actions vm e = rw (← e) (with_dag vm.world _)

pub action-Grows :
    (w : World) (idx : ℕ) (a : PAction) → GrowsQuietly w (record w { dag = add_action idx a w.dag })
action-Grows w idx a = (((λ k out y. refl), refl, Extends-add_action idx a w.dag), (λ p. p))

module _ (vm : Vm) where
  abbrev Quietly : World → Type 0
  Quietly = GrowsQuietly vm.world

  same : Quietly vm.world
  same = GrowsQuietly-refl vm.world

  pub promise_batch_create-Grows :
      (l p : ℕ) → Holds (GrowsQuietly vm.world) (promise_batch_create l p vm)
  unfolding promise_batch_create
  promise_batch_create-Grows l p = charge_gas-Holds Quietly _ vm _ same (λ g.
      read_str-Holds Quietly l p (record vm { gas = g }) _ same
        (λ acct. push-Grows vm.world [] acct [] (record vm { gas = g }) refl))

  pub promise_batch_then-Grows :
      (idx l p : ℕ) → Holds (GrowsQuietly vm.world) (promise_batch_then idx l p vm)
  unfolding promise_batch_then
  promise_batch_then-Grows idx l p =
      read_str-Holds Quietly l p vm _ same (λ acct. push-Grows vm.world (idx ∷ []) acct [] vm refl)

  pub promise_batch_action_function_call-Grows :
      (idx ml mp al ap dep_ptr gas : ℕ)
      → Holds
          (GrowsQuietly vm.world)
          (promise_batch_action_function_call idx ml mp al ap dep_ptr gas vm)
  unfolding promise_batch_action_function_call
  promise_batch_action_function_call-Grows idx ml mp al ap dep_ptr gas =
      read_str-Holds Quietly ml mp vm _ same (λ method.
        read_str-Holds Quietly al ap vm _ same (λ args.
          read_u128-Holds Quietly dep_ptr vm
            (λ dep. done 0 (with_action idx (fn_call method args gas dep) vm)) same
            (λ dep. action-Grows vm.world idx (fn_call method args gas dep))))

  pub promise_batch_action_transfer-Grows :
      (idx amt_ptr : ℕ)
      → Holds (GrowsQuietly vm.world) (promise_batch_action_transfer idx amt_ptr vm)
  unfolding promise_batch_action_transfer
  promise_batch_action_transfer-Grows idx amt_ptr =
      read_u128-Holds Quietly amt_ptr vm (λ amt. done 0 (with_action idx (transfer amt) vm)) same
        (λ amt. action-Grows vm.world idx (transfer amt))

  pub promise_create-Grows :
      (acl acp ml mp al ap gas : ℕ)
      → Holds (GrowsQuietly vm.world) (promise_create acl acp ml mp al ap gas vm)
  unfolding promise_create
  promise_create-Grows acl acp ml mp al ap gas = read_str-Holds Quietly acl acp vm _ same (λ acct.
      read_str-Holds Quietly ml mp vm _ same (λ method.
        read_str-Holds Quietly al ap vm _ same (λ args. push-Grows vm.world [] acct _ vm refl)))

  pub promise_then-Grows :
      (idx acl acp ml mp al ap gas : ℕ)
      → Holds (GrowsQuietly vm.world) (promise_then idx acl acp ml mp al ap gas vm)
  unfolding promise_then
  promise_then-Grows idx acl acp ml mp al ap gas = read_str-Holds Quietly acl acp vm _ same (λ acct.
      read_str-Holds Quietly ml mp vm _ same (λ method.
        read_str-Holds Quietly al ap vm _ same
          (λ args. push-Grows vm.world (idx ∷ []) acct _ vm refl)))

  pub promise_and-Grows : (ptr count : ℕ) → Holds (GrowsQuietly vm.world) (promise_and ptr count vm)
  unfolding promise_and
  promise_and-Grows ptr count =
      charge_gas-Holds Quietly _ vm _ same
        (λ g. go (record vm { gas = g }) refl (read_deps count ptr vm.memory))
    where
      go :
          (vm1 : Vm)
          → vm1.world ≡ vm.world
          → (o : Option (List ℕ))
          → Holds Quietly (elim o [ none ↦ trap panicked vm1 | some deps ↦ push deps [] [] vm1 ])
      go vm1 e none = rw (e) same
      go vm1 e (some deps) = push-Grows vm.world deps [] [] vm1 e

  pub promise_results_count-Grows : Holds (GrowsQuietly vm.world) (promise_results_count vm)
  unfolding promise_results_count
  promise_results_count-Grows = same

  pub promise_result-Grows :
      (idx rid : ℕ) → Holds (GrowsQuietly vm.world) (promise_result idx rid vm)
  unfolding promise_result write_reg_checked
  promise_result-Grows idx rid = go (get_elem? vm.world.promise_results idx)
    where
      stored : (v : Bytes) → (store_result rid v vm.world.st).storage ≡ vm.world.st.storage
      stored [] = refl
      stored (b ∷ bs) = elim (Option-cases (reject vm.world.st rid (b ∷ bs))) [
        | inl e ↦ rw (e, write_reg_checked, store_result) refl
        | inr (r, e) ↦ rw (e, write_reg_checked, store_result) refl
      ]

      go :
          (o : Option (Option Bytes))
          → Holds Quietly (elim o [
            | none ↦ done 0 vm
            | some none ↦ done 0 vm
            | some (some v) ↦
                done 1
                  (record vm { world = record vm.world { st = store_result rid v vm.world.st } })
          ])
      go none = same
      go (some none) = same
      go (some (some v)) =
          (((λ k out y. ap (lookup k) (stored v)), refl, (λ j b e. (b, e, refl))), (λ p. p))

  pub promise_return-Grows : (idx : ℕ) → Holds (Grows vm.world) (promise_return idx vm)
  unfolding promise_return
  promise_return-Grows idx =
      charge_gas-Holds (Grows vm.world) _ vm _ (Grows-refl vm.world) (λ g. Grows-refl vm.world)

  yield-Grows :
      (method args : Bytes) (gas reg : ℕ) → Quietly (with_yield method args gas reg vm.world)
  unfolding with_yield
  yield-Grows method args gas reg =
      (((λ k out y. other k y), refl, Extends-append vm.world.dag _), (λ p. p))
    where
      other :
          (k : Bytes)
          → starts_with k yield_prefix ≡ false
          → lookup k (
              insert
                (yield_prefix ++ to_string (length vm.world.dag))
                (yield_spec (contract_of vm.world.exec_ctx) method args)
                vm.world.st.storage)
            ≡ lookup k vm.world.st.storage
      other k y =
          let key = yield_prefix ++ to_string (length vm.world.dag) in
          ground (
            arith,
            lookup-insert key k (yield_spec (contract_of vm.world.exec_ctx) method args)
                vm.world.st.storage,
            bytes_eq_iff key k,
            starts_with-append yield_prefix (to_string (length vm.world.dag)),
            ap (λ b. starts_with b yield_prefix),
            y,
          )

  pub promise_yield_create-Grows :
      (ml mp al ap gas reg : ℕ)
      → Holds (GrowsQuietly vm.world) (promise_yield_create ml mp al ap gas reg vm)
  unfolding promise_yield_create
  promise_yield_create-Grows ml mp al ap gas reg = read_str-Holds Quietly ml mp vm _ same (λ method.
      read_str-Holds Quietly al ap vm
        (λ args.
          done (length vm.world.dag)
            (record vm { world = with_yield method args gas reg vm.world }))
        same (λ args. yield-Grows method args gas reg))
