-- ===== src/Promise/Execute.antt =====
-- promises.rs, `execute_promise` and `execute_promise_uncached`: a receipt with its dependencies
-- first, each receipt at most once.
mod Memo
pub mod Calls
pub mod Depth
pub mod Once
use near_mock.Base.{
  ℕ, zero, suc, ◌+◌, Bool, true, false, List, [], ◌∷◌, ◌++◌, Option, none, some, Bytes, get_elem?,
  nat_eq, ◌||◌, if◌then◌else◌, ◌==◌,
}
use near_mock.Base.{ℕ_eq, bytes_Key}
use near_mock.Base.Map.{lookup, insert}
use near_mock.Promise.{
  PAction, fn_call, PromiseBatch, Results, World, with_storage, Res, ok, error, stop, panicked,
  out_of_fuel,
}
use near_mock.Promise.Actions.{Progress, Flow, continue, halt, Touched, plain_action}
use near_mock.Promise.Call.{Modules, sub_execute}

abbrev pub mem : ℕ → List ℕ → Bool
mem x [] = false
mem x (y ∷ r) = nat_eq x y || mem x r

-- `EXECUTED_PROMISES.insert(idx)`
unfoldable pub mark_executed : ℕ → World → World
mark_executed idx w = record w { executed = idx ∷ w.executed }

-- The chaining of fallible steps, `?`.
abbrev pub and_then {ℓ κ} : {A : Type ℓ} {B : Type κ} → Res A → (A → World → Res B) → Res B
and_then (ok a w) f = f a w
and_then (error w) f = error w
and_then (stop s) f = stop s

-- What a batch has done so far, with the world in place of the storage.
abbrev pub Partial : Type 0
Partial = Touched × Results

abbrev pub lift_flow : World → Flow → (Partial → World → Res Results) → Res Results
lift_flow w (continue s) rest = rest (s.touched, s.out) (with_storage w s.storage)
lift_flow w (halt s) rest = ok s.out (with_storage w s.storage)

module _ (modules : Modules) (run : ℕ → World → Res Results) where
  -- `for dep in &batch.deps { dep_results.extend(execute_promise(*dep)?) }`
  unfoldable pub run_deps : List ℕ → Results → World → Res Results
  run_deps [] acc w = ok acc w
  run_deps (d ∷ ds) acc w = and_then (run d w) (λ r w'. run_deps ds (acc ++ r) w')

  -- The promise that the callee returned, run before the batch goes on.
  unfoldable pub run_returned : Option ℕ → Results → World → Res Results
  run_returned none out w = ok out w
  run_returned (some ridx) out w = and_then (run ridx w) (λ r w'. ok (out ++ r) w')

  -- `PAction::FnCall`: PENDING_RETURN is taken before the call and put back after it.
  unfoldable pub fn_call_action : PromiseBatch → Bytes → Bytes → ℕ → Results → World → Res Results
  unfolding run_returned
  fn_call_action batch method args dep out w =
      and_then
        (sub_execute modules batch.account method args batch.creator dep
          (record w { pending_return = none }))
        (λ r w'.
          run_returned w'.pending_return (out ++ r ∷ [])
            (record w' { pending_return = w.pending_return }))

  -- One round of the loop over the actions; `rest` is the rounds that follow.
  unfoldable pub run_action :
      PromiseBatch → PAction → Partial → World → (Partial → World → Res Results) → Res Results
  unfolding fn_call_action
  run_action batch (fn_call method args gas dep) (touched, out) w rest =
      and_then (fn_call_action batch method args dep out w) (λ out' w'. rest (touched, out') w')
  run_action batch a (touched, out) w rest =
      lift_flow w
        (plain_action batch.creator batch.account a
          (record { storage = w.st.storage; touched = touched; out = out }))
        rest

  unfoldable pub run_actions : PromiseBatch → List PAction → Partial → World → Res Results
  unfolding run_action
  run_actions batch [] (touched, out) w = ok out w
  run_actions batch (a ∷ r) s w = run_action batch a s w (run_actions batch r)

  -- The branch of a yield batch: only its function calls run, and a failing link is a failed result.
  unfoldable pub run_yield : PromiseBatch → List PAction → Results → World → Res Results
  run_yield batch [] out w = ok out w
  run_yield batch (fn_call method args gas dep ∷ rest) out w =
      elim (sub_execute modules batch.account method args batch.creator dep w) [
        | ok r w' ↦ run_yield batch rest (out ++ r ∷ []) w'
        | error w' ↦ run_yield batch rest (out ++ none ∷ []) w'
        | stop s ↦ stop s
      ]
  run_yield batch (a ∷ rest) out w = run_yield batch rest out w

  -- A yield batch sees one result that is not ready. What it puts back is `dep_results`.
  unfoldable pub yield_batch : PromiseBatch → Results → World → Res Results
  unfolding run_yield
  yield_batch batch dep_results w =
      and_then
        (run_yield batch batch.actions []
          (record w { promise_results = none ∷ []; mirror = none ∷ [] }))
        (λ out w'. ok out (record w' { promise_results = dep_results; mirror = w.mirror }))

  unfoldable pub plain_batch : PromiseBatch → Results → World → Res Results
  unfolding run_actions
  plain_batch batch dep_results w =
      and_then
        (let seen = record w { promise_results = dep_results; mirror = dep_results } in
          elim (batch.account == []) [
            | true ↦ ok dep_results seen
            | false ↦ run_actions batch batch.actions ([], []) seen
          ])
        (λ out w'. ok out (record w' { promise_results = w.promise_results; mirror = w.mirror }))

  unfoldable pub execute_batch : ℕ → PromiseBatch → World → Res Results
  unfolding run_deps yield_batch plain_batch
  execute_batch idx batch w = and_then (run_deps batch.deps [] w) (λ dep_results w'.
      if mem idx w.fail_receipts
      then ok [] w'
      else if batch.is_yield
      then yield_batch batch dep_results w'
      else plain_batch batch dep_results w')

  unfoldable pub execute_promise_uncached : ℕ → World → Res Results
  unfolding execute_batch mark_executed
  execute_promise_uncached idx w = elim (get_elem? w.dag idx) [
    | none ↦ stop panicked
    | some batch ↦ execute_batch idx batch (mark_executed idx w)
  ]

  unfoldable pub execute_once : ℕ → World → Res Results
  unfolding execute_promise_uncached mark_executed
  execute_once idx w = elim (lookup idx w.outcomes) [
    | some hit ↦ ok hit (mark_executed idx w)
    | none ↦
        and_then (execute_promise_uncached idx w)
          (λ out w'. ok out (record w' { outcomes = insert idx out w'.outcomes }))
  ]

-- The recursion of `execute_promise`, on fuel.
unfoldable pub execute_promise : Modules → ℕ → ℕ → World → Res Results
unfolding execute_once
execute_promise modules zero idx w = stop out_of_fuel
execute_promise modules (suc n) idx w = execute_once modules (execute_promise modules n) idx w
