-- ===== src/Promise/Execute/Memo.antt =====
-- promises.rs, `execute_promise`: what is remembered of receipts is never lost, so each runs once.
use near_mock.Base.{
  ℕ, List, [], ◌∷◌, ◌++◌, Option, none, some, Bytes, get_elem?, ◌==◌, Bool-cases, inl, inr,
  Option-cases,
}
use near_mock.Base.{ℕ_eq, bytes_Key}
use near_mock.Promise.{
  PAction, fn_call, transfer, stake, add_key, delete_key, delete_account, transfer_to_gas_key,
  add_gas_key, deploy_global_contract, use_global_contract, PromiseBatch, World, Results, Res, ok,
  error, stop, with_storage,
}
use near_mock.Promise.Actions.{Flow, continue, halt}
use near_mock.Promise.Call.{Modules, sub_execute}
use near_mock.Promise.Call.Laws.{Memo, memo, Stable, Kept, sub_execute-Kept}
use near_mock.Promise.Execute.{
  mem, mark_executed, and_then, lift_flow, Partial, run_deps, run_returned, fn_call_action,
  run_action, run_actions, run_yield, yield_batch, plain_batch, execute_batch,
  execute_promise_uncached,
}

and_then-Kept {ℓ κ} :
    {A : Type ℓ} {B : Type κ} (P : Memo → Type 0) (r : Res A) (f : A → World → Res B)
    → Kept P r
    → ((a : A) (w : World) → P (memo w) → Kept P (f a w))
    → Kept P (and_then r f)
and_then-Kept P (ok a w) f h k = k a w h
and_then-Kept P (error w) f h k = h
and_then-Kept P (stop s) f h k = h

lift_flow-Kept :
    (P : Memo → Type 0) (w : World) (s : Flow) (rest : Partial → World → Res Results)
    → P (memo w)
    → ((p : Partial) (w' : World) → P (memo w') → Kept P (rest p w'))
    → Kept P (lift_flow w s rest)
lift_flow-Kept P w (continue s) rest h k = k (s.touched, s.out) (with_storage w s.storage) h
lift_flow-Kept P w (halt s) rest h k = h

module _ (modules : Modules) (P : Memo → Type 0) (stable : Stable modules P)
    (marks : (idx : ℕ) (m : Memo) → P m → P (m.0, idx ∷ m.1, m.2)) (run : ℕ → World → Res Results)
    (run-Kept : (idx : ℕ) (w : World) → P (memo w) → Kept P (run idx w)) where
  run_deps-Kept :
      (ds : List ℕ) (acc : Results) (w : World)
      → P (memo w)
      → Kept P (run_deps modules run ds acc w)
  unfolding run_deps
  run_deps-Kept [] acc w h = h
  run_deps-Kept (d ∷ ds) acc w h =
      and_then-Kept P (run d w) _ (run-Kept d w h) (λ r w' h'. run_deps-Kept ds (acc ++ r) w' h')

  run_returned-Kept :
      (o : Option ℕ) (out : Results) (w : World)
      → P (memo w)
      → Kept P (run_returned modules run o out w)
  unfolding run_returned
  run_returned-Kept none out w h = h
  run_returned-Kept (some ridx) out w h =
      and_then-Kept P (run ridx w) _ (run-Kept ridx w h) (λ r w' h'. h')

  fn_call_action-Kept :
      (b : PromiseBatch) (method args : Bytes) (dep : ℕ) (out : Results) (w : World)
      → P (memo w)
      → Kept P (fn_call_action modules run b method args dep out w)
  unfolding fn_call_action
  fn_call_action-Kept b method args dep out w h =
      and_then-Kept P
        (sub_execute modules b.account method args b.creator dep
          (record w { pending_return = none }))
        _ (sub_execute-Kept modules P stable b.account method args b.creator dep _ h)
        (λ r w' h'. run_returned-Kept w'.pending_return (out ++ r ∷ []) _ h')

  run_action-Kept :
      (b : PromiseBatch) (a : PAction) (p : Partial) (w : World)
      (rest : Partial → World → Res Results)
      → P (memo w)
      → ((p' : Partial) (w' : World) → P (memo w') → Kept P (rest p' w'))
      → Kept P (run_action modules run b a p w rest)
  unfolding run_action
  run_action-Kept b (fn_call method args gas dep) p w rest h k =
      and_then-Kept P (fn_call_action modules run b method args dep p.1 w) _
        (fn_call_action-Kept b method args dep p.1 w h) (λ out' w' h'. k (p.0, out') w' h')
  run_action-Kept b (transfer amt) p w rest h k = lift_flow-Kept P w _ rest h k
  run_action-Kept b (stake amt) p w rest h k = lift_flow-Kept P w _ rest h k
  run_action-Kept b (add_key pk) p w rest h k = lift_flow-Kept P w _ rest h k
  run_action-Kept b (delete_key pk) p w rest h k = lift_flow-Kept P w _ rest h k
  run_action-Kept b (delete_account ben) p w rest h k = lift_flow-Kept P w _ rest h k
  run_action-Kept b (transfer_to_gas_key amt) p w rest h k = lift_flow-Kept P w _ rest h k
  run_action-Kept b (add_gas_key pk) p w rest h k = lift_flow-Kept P w _ rest h k
  run_action-Kept b (deploy_global_contract code) p w rest h k = lift_flow-Kept P w _ rest h k
  run_action-Kept b (use_global_contract id) p w rest h k = lift_flow-Kept P w _ rest h k

  run_actions-Kept :
      (b : PromiseBatch) (actions : List PAction) (p : Partial) (w : World)
      → P (memo w)
      → Kept P (run_actions modules run b actions p w)
  unfolding run_actions
  run_actions-Kept b [] p w h = h
  run_actions-Kept b (a ∷ r) p w h =
      run_action-Kept b a p w (run_actions modules run b r) h (run_actions-Kept b r)

  run_yield-Kept :
      (b : PromiseBatch) (actions : List PAction) (out : Results) (w : World)
      → P (memo w)
      → Kept P (run_yield modules run b actions out w)
  unfolding run_yield
  run_yield-Kept b [] out w h = h
  run_yield-Kept b (fn_call method args gas dep ∷ r) out w h =
      go (sub_execute modules b.account method args b.creator dep w)
        (sub_execute-Kept modules P stable b.account method args b.creator dep w h)
        (run_yield-Kept b r)
    where
      go :
          (res : Res (Option Bytes))
          → Kept P res
          → ((o : Results) (w' : World) → P (memo w') → Kept P (run_yield modules run b r o w'))
          → Kept P (elim res [
            | ok x w' ↦ run_yield modules run b r (out ++ x ∷ []) w'
            | error w' ↦ run_yield modules run b r (out ++ none ∷ []) w'
            | stop s ↦ stop s
          ])
      go (ok x w') h' k = k _ w' h'
      go (error w') h' k = k _ w' h'
      go (stop s) h' k = h'
  run_yield-Kept b (transfer amt ∷ r) out w h = run_yield-Kept b r out w h
  run_yield-Kept b (stake amt ∷ r) out w h = run_yield-Kept b r out w h
  run_yield-Kept b (add_key pk ∷ r) out w h = run_yield-Kept b r out w h
  run_yield-Kept b (delete_key pk ∷ r) out w h = run_yield-Kept b r out w h
  run_yield-Kept b (delete_account ben ∷ r) out w h = run_yield-Kept b r out w h
  run_yield-Kept b (transfer_to_gas_key amt ∷ r) out w h = run_yield-Kept b r out w h
  run_yield-Kept b (add_gas_key pk ∷ r) out w h = run_yield-Kept b r out w h
  run_yield-Kept b (deploy_global_contract code ∷ r) out w h = run_yield-Kept b r out w h
  run_yield-Kept b (use_global_contract id ∷ r) out w h = run_yield-Kept b r out w h

  yield_batch-Kept :
      (b : PromiseBatch) (deps : Results) (w : World)
      → P (memo w)
      → Kept P (yield_batch modules run b deps w)
  unfolding yield_batch
  yield_batch-Kept b deps w h =
      and_then-Kept P (run_yield modules run b b.actions [] _) _ (run_yield-Kept b b.actions [] _ h)
        (λ o w' h'. h')

  plain_batch-Kept :
      (b : PromiseBatch) (deps : Results) (w : World)
      → P (memo w)
      → Kept P (plain_batch modules run b deps w)
  unfolding plain_batch
  plain_batch-Kept b deps w h = elim (Bool-cases (b.account == [])) [
    | inl e ↦ rw (e, plain_batch) h
    | inr e ↦
        rw (e, plain_batch)
          (and_then-Kept P (run_actions modules run b b.actions ([], []) _) _
            (run_actions-Kept b b.actions ([], []) _ h) (λ o w' h'. h'))
  ]

  pub execute_batch-Kept :
      (idx : ℕ) (b : PromiseBatch) (w : World)
      → P (memo w)
      → Kept P (execute_batch modules run idx b w)
  unfolding execute_batch
  execute_batch-Kept idx b w h =
      and_then-Kept P (run_deps modules run b.deps [] w) _ (run_deps-Kept b.deps [] w h)
        (λ deps w' h'. elim (Bool-cases (mem idx w.fail_receipts)) [
          | inl e ↦ rw (e) h'
          | inr e ↦ elim (Bool-cases b.is_yield) [
            | inl y ↦ rw (e, y) (yield_batch-Kept b deps w' h')
            | inr y ↦ rw (e, y) (plain_batch-Kept b deps w' h')
          ]
        ])

  pub execute_promise_uncached-Kept :
      (idx : ℕ) (w : World) → P (memo w) → Kept P (execute_promise_uncached modules run idx w)
  unfolding execute_promise_uncached mark_executed
  execute_promise_uncached-Kept idx w h = elim (Option-cases (get_elem? w.dag idx)) [
    | inl e ↦ rw (e, execute_promise_uncached) tt
    | inr (b, e) ↦
        rw (e, execute_promise_uncached)
          (execute_batch-Kept idx b (mark_executed idx w) (marks idx (memo w) h))
  ]
