-- ===== src/Promise.antt =====
-- near_mock/promises.rs: the promise engine. Its thread-local state is one record, `World`; a
-- receipt is a batch of actions in the DAG, executed once, its dependencies first.
pub mod Actions
pub mod Call
pub mod Execute
mod Tests
use near_mock.Base.{
  ℕ, ◌+◌, ◌-◌, ◌≡◌, Bool, true, false, List, [], ◌∷◌, ◌++◌, Option, none, some, Bytes, length,
}
use near_mock.Base.Map.{Map}
use near_mock.State.{MockState}

-- `PAction`
pub data PAction : Type 0 where
  fn_call : (method args : Bytes) (gas dep : ℕ) → PAction
  transfer : (amt : ℕ) → PAction
  stake : (amount : ℕ) → PAction
  add_key : (pk : Bytes) → PAction
  delete_key : (pk : Bytes) → PAction
  delete_account : (beneficiary : Bytes) → PAction
  transfer_to_gas_key : (amount : ℕ) → PAction
  add_gas_key : (pk : Bytes) → PAction
  deploy_global_contract : (code : Bytes) → PAction
  use_global_contract : (account_id : Bytes) → PAction

pub record PromiseBatch : Type 0 where
  pub deps : List ℕ
  pub account : Bytes
  pub creator : Bytes
  pub actions : List PAction
  pub is_yield : Bool

-- `ExecCtx`: the context of the running call.
pub record ExecCtx : Type 0 where
  pub input : Bytes
  pub signer : Bytes
  pub predecessor : Bytes
  pub contract : Bytes
  pub view : Bool

-- The results of the actions of a receipt, `none` for a failed one.
abbrev pub Results : Type 0
Results = List (Option Bytes)

-- The shared state behind `STATE_ARC` and the thread-local cells PROMISE_DAG, EXECUTED_PROMISES,
-- PROMISE_OUTCOMES, PROMISE_RESULTS, its mirror for the other hosts, PENDING_RETURN,
-- FAIL_RECEIPTS, RECEIPT_TRAPS, EXEC_CTX, CURRENT_DEPOSIT, LOG_LINES, RECEIPT_QUEUE and
-- DEFER_RECEIPTS.
pub record World : Type 0 where
  pub st : MockState
  pub dag : List PromiseBatch
  pub executed : List ℕ
  pub outcomes : Map ℕ Results
  pub promise_results : Results
  pub mirror : Results
  pub pending_return : Option ℕ
  pub fail_receipts : List ℕ
  pub receipt_traps : List Bytes
  pub exec_ctx : Option ExecCtx
  pub current_deposit : Option ℕ
  pub logs : List Bytes
  pub receipt_queue : List PromiseBatch
  pub defer_receipts : Bool

abbrev pub with_storage : World → Map Bytes Bytes → World
with_storage w m = record w { st = record w.st { storage = m } }

-- `exec_ctx_or_default().contract`: the default context has no contract.
abbrev pub contract_of : Option ExecCtx → Bytes
contract_of none = []
contract_of (some ctx) = ctx.contract

abbrev pub new_batch : List ℕ → Bytes → List PAction → World → PromiseBatch
new_batch deps account actions w = record {
  deps = deps;
  account = account;
  creator = contract_of w.exec_ctx;
  actions = actions;
  is_yield = false;
}

-- `dag_push`: the new batch stands last; its index is the old length.
unfoldable pub dag_push : List ℕ → Bytes → List PAction → World → ℕ × World
dag_push deps account actions w =
    (length w.dag, record w { dag = w.dag ++ new_batch deps account actions w ∷ [] })

-- `fail_receipts_set`
unfoldable pub fail_receipts_set : List ℕ → World → World
fail_receipts_set v w = record w { fail_receipts = v }

-- Why an execution yields no world: a Rust panic, or the fuel of the model.
pub data Stop : Type 0 where
  panicked out_of_fuel : Stop

-- `Result<_, Box<dyn Error>>`, with the state it leaves behind in both cases.
pub data Res {ℓ} (A : Type ℓ) : Type ℓ where
  ok : A → World → Res A
  error : World → Res A
  stop : Stop → Res A
