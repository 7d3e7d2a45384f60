-- ===== src/Promise/Execute/Depth.antt =====
-- promises.rs, `execute_promise`: the recursion ends. Where the dependencies of a receipt come before
-- it and contracts return no promise, the index of a receipt bounds the depth.
use near_mock.Base.{
  ℕ, zero, suc, ◌≤◌, ◌<◌, ◌≡◌, refl, sym, subst, List, [], ◌∷◌, ◌++◌, Option, none, some, Bytes,
  arith, length, get_elem?, ◌==◌, Bool-cases, inl, inr, Option-cases,
}
use near_mock.Base.{bytes_Key, ℕ_eq}
use near_mock.Base.Map.{lookup}
use near_mock.Promise.{
  PAction, fn_call, transfer, stake, add_key, delete_key, delete_account, transfer_to_gas_key,
  add_gas_key, deploy_global_contract, use_global_contract, PromiseBatch, World, Results, Res, ok,
  error, stop, with_storage,
}
use near_mock.Promise.Actions.{Flow, continue, halt}
use near_mock.Promise.Call.{Modules, sub_execute}
use near_mock.Promise.Execute.{
  mem, mark_executed, and_then, lift_flow, Partial, run_deps, run_returned, fn_call_action,
  run_action, run_actions, run_yield, yield_batch, plain_batch, execute_batch,
  execute_promise_uncached, execute_once, execute_promise,
}
use near_mock.Promise.Execute.Calls.{
  Extends, IsQuiet, AllBelow, IsCausal, Ends, EndsCall, sub_execute-Ends,
}

and_then-Ends {ℓ κ} :
    {A : Type ℓ} {B : Type κ} (dag : List PromiseBatch) (r : Res A) (f : A → World → Res B)
    → Ends dag r
    → ((a : A) (w : World) → Extends dag w.dag → Ends dag (f a w))
    → Ends dag (and_then r f)
and_then-Ends dag (ok a w) f h k = k a w h
and_then-Ends dag (error w) f h k = h
and_then-Ends dag (stop s) f h k = h

lift_flow-Ends :
    (dag : List PromiseBatch) (w : World) (s : Flow) (rest : Partial → World → Res Results)
    → Extends dag w.dag
    → ((p : Partial) (w' : World) → Extends dag w'.dag → Ends dag (rest p w'))
    → Ends dag (lift_flow w s rest)
lift_flow-Ends dag w (continue s) rest h k = k (s.touched, s.out) (with_storage w s.storage) h
lift_flow-Ends dag w (halt s) rest h k = h

module _ (modules : Modules) (quiet : IsQuiet modules) (dag : List PromiseBatch) (bound : ℕ)
    (run : ℕ → World → Res Results)
    (run-Ends : (i : ℕ) (w : World) → i < bound → Extends dag w.dag → Ends dag (run i w)) where
  run_deps-Ends :
      (ds : List ℕ) (acc : Results) (w : World)
      → AllBelow bound ds
      → Extends dag w.dag
      → Ends dag (run_deps modules run ds acc w)
  unfolding run_deps
  run_deps-Ends [] acc w below h = h
  run_deps-Ends (d ∷ ds) acc w below h =
      and_then-Ends dag (run d w) _ (run-Ends d w below.0 h)
        (λ r w' h'. run_deps-Ends ds (acc ++ r) w' below.1 h')

  fn_call_action-Ends :
      (b : PromiseBatch) (method args : Bytes) (dep : ℕ) (out : Results) (w : World)
      → Extends dag w.dag
      → Ends dag (fn_call_action modules run b method args dep out w)
  unfolding fn_call_action run_returned
  fn_call_action-Ends b method args dep out w h =
      go
        (sub_execute modules b.account method args b.creator dep
          (record w { pending_return = none }))
        (sub_execute-Ends modules quiet dag b.account method args b.creator dep _ h)
    where
      go :
          (r : Res (Option Bytes))
          → EndsCall dag none r
          → Ends dag (
              and_then r (λ x w'.
                run_returned modules run w'.pending_return
                  (out ++ x ∷ [])
                  (record w' { pending_return = w.pending_return })))
      go (ok x w') e = rw (e.1 refl, run_returned) e.0
      go (error w') e = e.0
      go (stop s) e = e

  run_action-Ends :
      (b : PromiseBatch) (a : PAction) (p : Partial) (w : World)
      (rest : Partial → World → Res Results)
      → Extends dag w.dag
      → ((p' : Partial) (w' : World) → Extends dag w'.dag → Ends dag (rest p' w'))
      → Ends dag (run_action modules run b a p w rest)
  unfolding run_action
  run_action-Ends b (fn_call method args gas dep) p w rest h k =
      and_then-Ends dag (fn_call_action modules run b method args dep p.1 w) _
        (fn_call_action-Ends b method args dep p.1 w h) (λ out' w' h'. k (p.0, out') w' h')
  run_action-Ends b (transfer amt) p w rest h k = lift_flow-Ends dag w _ rest h k
  run_action-Ends b (stake amt) p w rest h k = lift_flow-Ends dag w _ rest h k
  run_action-Ends b (add_key pk) p w rest h k = lift_flow-Ends dag w _ rest h k
  run_action-Ends b (delete_key pk) p w rest h k = lift_flow-Ends dag w _ rest h k
  run_action-Ends b (delete_account ben) p w rest h k = lift_flow-Ends dag w _ rest h k
  run_action-Ends b (transfer_to_gas_key amt) p w rest h k = lift_flow-Ends dag w _ rest h k
  run_action-Ends b (add_gas_key pk) p w rest h k = lift_flow-Ends dag w _ rest h k
  run_action-Ends b (deploy_global_contract code) p w rest h k = lift_flow-Ends dag w _ rest h k
  run_action-Ends b (use_global_contract id) p w rest h k = lift_flow-Ends dag w _ rest h k

  run_actions-Ends :
      (b : PromiseBatch) (actions : List PAction) (p : Partial) (w : World)
      → Extends dag w.dag
      → Ends dag (run_actions modules run b actions p w)
  unfolding run_actions
  run_actions-Ends b [] p w h = h
  run_actions-Ends b (a ∷ r) p w h =
      run_action-Ends b a p w (run_actions modules run b r) h (run_actions-Ends b r)

  run_yield-Ends :
      (b : PromiseBatch) (actions : List PAction) (out : Results) (w : World)
      → Extends dag w.dag
      → Ends dag (run_yield modules run b actions out w)
  unfolding run_yield
  run_yield-Ends b [] out w h = h
  run_yield-Ends b (fn_call method args gas dep ∷ r) out w h =
      go (sub_execute modules b.account method args b.creator dep w)
        (sub_execute-Ends modules quiet dag b.account method args b.creator dep w h)
        (run_yield-Ends b r)
    where
      go :
          (res : Res (Option Bytes))
          → EndsCall dag w.pending_return res
          → ((o : Results) (w' : World)
              → Extends dag w'.dag
              → Ends dag (run_yield modules run b r o w'))
          → Ends dag (elim res [
            | ok x w' ↦ run_yield modules run b r (out ++ x ∷ []) w'
            | error w' ↦ run_yield modules run b r (out ++ none ∷ []) w'
            | stop s ↦ stop s
          ])
      go (ok x w') e k = k _ w' e.0
      go (error w') e k = k _ w' e.0
      go (stop s) e k = e
  run_yield-Ends b (transfer amt ∷ r) out w h = run_yield-Ends b r out w h
  run_yield-Ends b (stake amt ∷ r) out w h = run_yield-Ends b r out w h
  run_yield-Ends b (add_key pk ∷ r) out w h = run_yield-Ends b r out w h
  run_yield-Ends b (delete_key pk ∷ r) out w h = run_yield-Ends b r out w h
  run_yield-Ends b (delete_account ben ∷ r) out w h = run_yield-Ends b r out w h
  run_yield-Ends b (transfer_to_gas_key amt ∷ r) out w h = run_yield-Ends b r out w h
  run_yield-Ends b (add_gas_key pk ∷ r) out w h = run_yield-Ends b r out w h
  run_yield-Ends b (deploy_global_contract code ∷ r) out w h = run_yield-Ends b r out w h
  run_yield-Ends b (use_global_contract id ∷ r) out w h = run_yield-Ends b r out w h

  plain_batch-Ends :
      (b : PromiseBatch) (deps : Results) (w : World)
      → Extends dag w.dag
      → Ends dag (plain_batch modules run b deps w)
  unfolding plain_batch
  plain_batch-Ends b deps w h = elim (Bool-cases (b.account == [])) [
    | inl e ↦ rw (e, plain_batch) h
    | inr e ↦
        rw (e, plain_batch)
          (and_then-Ends dag (run_actions modules run b b.actions ([], []) _) _
            (run_actions-Ends b b.actions ([], []) _ h) (λ o w' h'. h'))
  ]

  yield_batch-Ends :
      (b : PromiseBatch) (deps : Results) (w : World)
      → Extends dag w.dag
      → Ends dag (yield_batch modules run b deps w)
  unfolding yield_batch
  yield_batch-Ends b deps w h =
      and_then-Ends dag (run_yield modules run b b.actions [] _) _
        (run_yield-Ends b b.actions [] _ h) (λ o w' h'. h')

  execute_batch-Ends :
      (idx : ℕ) (b : PromiseBatch) (w : World)
      → AllBelow bound b.deps
      → Extends dag w.dag
      → Ends dag (execute_batch modules run idx b w)
  unfolding execute_batch
  execute_batch-Ends idx b w below h =
      and_then-Ends dag (run_deps modules run b.deps [] w) _ (run_deps-Ends b.deps [] w below h)
        (λ deps w' h'. elim (Bool-cases (mem idx w.fail_receipts)) [
          | inl e ↦ rw (e) h'
          | inr e ↦ elim (Bool-cases b.is_yield) [
            | inl y ↦ rw (e, y) (yield_batch-Ends b deps w' h')
            | inr y ↦ rw (e, y) (plain_batch-Ends b deps w' h')
          ]
        ])

  execute_once-Ends :
      (idx : ℕ) (b : PromiseBatch) (w : World)
      → get_elem? dag idx ≡ some b
      → AllBelow bound b.deps
      → Extends dag w.dag
      → Ends dag (execute_once modules run idx w)
  unfolding execute_once execute_promise_uncached mark_executed
  execute_once-Ends idx b w found below h = elim (Option-cases (lookup idx w.outcomes)) [
    | inr (hit, e) ↦ rw (e, execute_once) h
    | inl e ↦
        let (c, there, same) = h idx b found in
        rw (e, execute_once, there, execute_promise_uncached)
          (and_then-Ends dag (execute_batch modules run idx c (mark_executed idx w)) _
            (execute_batch-Ends idx c (mark_executed idx w)
              (subst (AllBelow bound) (sym same) below) h)
            (λ o w' h'. h'))
  ]

-- An index below the length has an element.
get_elem?-lt {ℓ} :
    {A : Type ℓ} (xs : List A) (i : ℕ) → i < length xs → (x : A) × (get_elem? xs i ≡ some x)
get_elem?-lt [] i h = absurd (omega (arith, h))
get_elem?-lt (x ∷ xs) zero h = (x, refl)
get_elem?-lt (x ∷ xs) (suc i) h = get_elem?-lt xs i (omega (arith, h))

execute_promise_depth :
    (modules : Modules) (dag : List PromiseBatch)
    → IsQuiet modules
    → IsCausal dag
    → (fuel bound : ℕ) → bound ≤ fuel
    → (idx : ℕ) (w : World) → idx < bound
    → idx < length dag
    → Extends dag w.dag
    → Ends dag (execute_promise modules fuel idx w)
unfolding execute_promise
execute_promise_depth modules dag quiet causal zero bound le idx w lt inside h =
    absurd (omega arith)
execute_promise_depth modules dag quiet causal (suc fuel) bound le idx w lt inside h =
    let (b, found) = get_elem?-lt dag idx inside in
    execute_once-Ends modules quiet dag idx (execute_promise modules fuel)
      (λ i w' below h'.
        execute_promise_depth modules dag quiet causal fuel idx (omega arith) i w' below
          (omega arith) h')
      idx b w found (causal idx b found) h

-- Executing a receipt of a DAG in which every batch depends on earlier ones only ends, with a result
-- or an error, whenever the fuel is more than its index, if contracts only push batches or add actions, and
-- return no promise: it does not panic nor run out of fuel, and no batch is lost or gets other
-- dependencies.
pub execute_promise-Ends :
    (modules : Modules) (w : World) (idx fuel : ℕ)
    → IsQuiet modules
    → IsCausal w.dag
    → idx < length w.dag
    → idx < fuel
    → Ends w.dag (execute_promise modules fuel idx w)
execute_promise-Ends modules w idx fuel quiet causal inside enough =
    execute_promise_depth modules w.dag quiet causal fuel fuel (omega arith) idx w enough inside
      (λ j b e. (b, e, refl))
