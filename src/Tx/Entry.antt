-- ===== src/Tx/Entry.antt =====
-- mod.rs, `credit_attach` and `execute_tx`: the entry call of a transaction, the receipts that follow
-- it, and the rollback when the entry fails.
pub mod Rollback
pub mod Commit
use near_mock.Base.{
  ℕ, ◌+◌, ◌-◌, ◌<◌, Bool, true, false, not, List, [], ◌∷◌, ◌++◌, Option, none, some, Bytes, ltb,
  if◌then◌else◌,
}
use near_mock.Base.{bytes_Key}
use near_mock.Base.Map.{Map, lookup, insert, remove}
use near_mock.State.Balance.{bal_key, read_amount, write_amount, lossy_amount, add_u128}
use near_mock.Promise.{
  World, ExecCtx, Results, Res, ok, error, stop, Stop, with_storage, fail_receipts_set,
}
use near_mock.Promise.Call.{Ran, link_error, no_method, returned, trapped, crashed, Modules}
use near_mock.Promise.Execute.{execute_promise}
use near_mock.Tx.{
  TxError, entry_failed, chain_failed, final_receipt_failed, TxOutcome, fresh_tx_state,
}
use near_mock.Tx.Drain.{drain}

unfoldable pub credit_attach : Bytes → ℕ → World → World
credit_attach acct amt w =
    let m = w.st.storage in
    with_storage w (write_amount m (bal_key acct) (add_u128 (read_amount m (bal_key acct)) amt))

-- What a transaction asks for.
pub record Request : Type 0 where
  pub contract_acct : Bytes
  pub method : Bytes
  pub args : Bytes
  pub signer : Bytes
  pub attach : ℕ
  pub fail_receipts : List ℕ
  pub view : Bool

abbrev pub entry_ctx : Request → ExecCtx
entry_ctx q = record {
  input = q.args;
  signer = q.signer;
  predecessor = q.signer;
  contract = q.contract_acct;
  view = q.view;
}

-- Up to the look-up of the contract.
unfoldable pub begin : Request → World → World
unfolding fresh_tx_state fail_receipts_set
begin q w = record (fresh_tx_state (fail_receipts_set q.fail_receipts w)) {
  current_deposit = some q.attach;
  exec_ctx = some (entry_ctx q);
}

unfoldable pub attach_deposit : Request → World → World
unfolding credit_attach
attach_deposit q w = if ltb 0 q.attach then credit_attach q.contract_acct q.attach w else w

-- The snapshot without the attached deposit.
unfoldable pub without_attach : Request → Map Bytes Bytes → Map Bytes Bytes
without_attach q snapshot =
    let key = bal_key q.contract_acct in
    if ltb 0 q.attach
    then elim (lookup key snapshot) [
      | none ↦ snapshot
      | some v ↦
          let pre_bal = lossy_amount v - q.attach in
          if ltb 0 pre_bal then write_amount snapshot key pre_bal else remove key snapshot
    ]
    else snapshot

-- What is known of the outcome before the remaining receipts run.
pub record Verdict : Type 0 where
  pub ok : Bool
  pub return_data : Option Bytes
  pub receipt_results : Results
  pub entry_trapped : Bool
  pub error : Option TxError

abbrev pub nonempty : Option Bytes → Option Bytes
nonempty none = none
nonempty (some []) = none
nonempty (some (b ∷ r)) = some (b ∷ r)

-- `results.last().is_some_and(|r| r.is_none())`
abbrev pub last_failed : Results → Bool
last_failed [] = false
last_failed (none ∷ []) = true
last_failed (some v ∷ []) = false
last_failed (r ∷ s ∷ t) = last_failed (s ∷ t)

-- `results.iter().rev().find_map(..)`
abbrev pub last_value : Results → Option Bytes
last_value [] = none
last_value (none ∷ r) = last_value r
last_value (some v ∷ r) = elim (last_value r) [ none ↦ some v | some x ↦ some x ]

-- `receipt_traps_peek_last`
abbrev pub peek_last : List Bytes → Option Bytes
peek_last [] = none
peek_last (t ∷ []) = some t
peek_last (t ∷ u ∷ r) = peek_last (u ∷ r)

unfoldable pub judge : Results → World → Verdict
judge results w = record {
  ok = not (last_failed results);
  return_data = nonempty (last_value results);
  receipt_results = results;
  entry_trapped = false;
  error =
      if last_failed results then some (final_receipt_failed (peek_last w.receipt_traps)) else none;
}

abbrev pub committed : Option Bytes → Verdict
committed v = record {
  ok = true;
  return_data = v;
  receipt_results = [];
  entry_trapped = false;
  error = none;
}

abbrev pub broken : Verdict
broken = record {
  ok = false;
  return_data = none;
  receipt_results = [];
  entry_trapped = false;
  error = some chain_failed;
}

abbrev pub entry_failure : Option Bytes → Verdict
entry_failure line = record {
  ok = false;
  return_data = none;
  receipt_results = [];
  entry_trapped = true;
  error = some (entry_failed line);
}

-- The entry's own data counts only where it returned no promise.
abbrev pub entry_data : World → Option Bytes
entry_data w = elim w.pending_return [ none ↦ nonempty w.st.return_data | some idx ↦ none ]

unfoldable pub queue_receipts : World → World
queue_receipts w = record w {
  defer_receipts = false;
  receipt_queue = w.receipt_queue ++ w.dag;
  dag = [];
  pending_return = none;
}

-- `modules` for the receipts; `started` is the world in which the entry's method begins, after its
-- module was instantiated and its `start` function ran.
module _ (modules : Modules) (started : Bytes → World → World) (depth rounds : ℕ) where
  -- The receipts of an entry that returned: the promise that it returned, then the rest.
  unfoldable pub run_root : Map Bytes Bytes → World → Res Verdict
  unfolding judge
  run_root snapshot w = elim w.pending_return [
    | none ↦ ok (committed (nonempty w.st.return_data)) w
    | some idx ↦ elim (execute_promise modules depth idx w) [
      | ok results w' ↦ ok (judge results w') w'
      | error w' ↦ ok broken (with_storage w' snapshot)
      | stop s ↦ stop s
    ]
  ]

  unfoldable pub finish : Verdict → ℕ → World → Res TxOutcome
  finish v orphan_failures w =
      ok
        (record {
          ok = v.ok;
          return_data = v.return_data;
          receipt_results = v.receipt_results;
          entry_trapped = v.entry_trapped;
          error = v.error;
          receipt_failures = w.receipt_traps;
          orphan_failures = orphan_failures;
          logs = w.logs;
        })
        (record w { receipt_traps = []; logs = []; current_deposit = none })

  unfoldable pub drain_and_finish : Verdict → World → Res TxOutcome
  unfolding finish
  drain_and_finish v w = elim (drain modules depth rounds 0 w) [
    | ok orphan_failures w' ↦ finish v orphan_failures w'
    | error w' ↦ error w'
    | stop s ↦ stop s
  ]

  -- An entry that returned.
  unfoldable pub commit : Map Bytes Bytes → World → Res TxOutcome
  unfolding finish run_root drain_and_finish queue_receipts
  commit snapshot w = elim w.defer_receipts [
    | true ↦ finish (committed (entry_data w)) 0 (queue_receipts w)
    | false ↦ elim (run_root snapshot (record w { defer_receipts = false })) [
      | ok v w' ↦ drain_and_finish v w'
      | error w' ↦ error w'
      | stop s ↦ stop s
    ]
  ]

  -- What follows the entry, by how it ended; `snapshot` is the storage when it began.
  unfoldable pub after_entry : Request → Map Bytes Bytes → Ran → Res TxOutcome
  unfolding finish commit without_attach
  after_entry q snapshot (link_error w) = error w
  after_entry q snapshot (no_method w) = error w
  after_entry q snapshot (returned w) = commit snapshot w
  after_entry q snapshot (crashed w) = stop Stop.panicked
  after_entry q snapshot (trapped w line) =
      finish (entry_failure line) 0 (with_storage w (without_attach q snapshot))

  unfoldable pub execute_tx : Request → World → Res TxOutcome
  unfolding begin attach_deposit after_entry
  execute_tx q w = elim (modules q.contract_acct) [
    | none ↦ error (begin q w)
    | some code ↦
        let ready = attach_deposit q (begin q w) in
        after_entry q (started q.contract_acct ready).st.storage (code q.method ready)
  ]
