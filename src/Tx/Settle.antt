-- ===== src/Tx/Settle.antt =====
-- mod.rs, `settle_receipts`: the delivery of queued receipts, in causal order.
pub mod Causal
pub mod Rounds
use near_mock.Base.{
  ℕ, zero, suc, ◌+◌, Bool, true, false, not, ◌&&◌, List, [], ◌∷◌, ◌++◌, Option, none, some, Bytes,
  length, get_elem?, if◌then◌else◌,
}
use near_mock.Promise.{PromiseBatch, World, Results, Res, ok, error, stop, panicked, out_of_fuel}
use near_mock.Promise.Call.{Modules}
use near_mock.Promise.Execute.{mem, execute_promise}

pub record SettleReport : Type 0 where
  pub delivered : ℕ
  pub receipt_results : Results
  pub failures : List Bytes
  pub logs : List Bytes

-- `batch.deps.iter().map(|dep| remap[*dep])`: an index outside `remap` panics.
unfoldable pub remap_deps : List ℕ → List ℕ → Option (List ℕ)
remap_deps remap [] = some []
remap_deps remap (d ∷ ds) = elim (get_elem? remap d) [
  | none ↦ none
  | some n ↦ elim (remap_deps remap ds) [ none ↦ none | some r ↦ some (n ∷ r) ]
]

-- The loop that pushes the queue into the empty DAG; `dag` is what it pushed.
unfoldable pub requeue : List PromiseBatch → List ℕ → List PromiseBatch → Option (List PromiseBatch)
unfolding remap_deps
requeue [] remap dag = some dag
requeue (batch ∷ queue) remap dag = elim (remap_deps remap batch.deps) [
  | none ↦ none
  | some deps ↦ requeue queue (remap ++ length dag ∷ []) (dag ++ record batch { deps = deps } ∷ [])
]

abbrev pub all_executed : List ℕ → List ℕ → Bool
all_executed [] executed = true
all_executed (d ∷ ds) executed = mem d executed && all_executed ds executed

-- The first batch that is not executed and whose dependencies all are.
unfoldable pub next_ready : ℕ → List PromiseBatch → List ℕ → Option ℕ
next_ready i [] executed = none
next_ready i (b ∷ r) executed =
    if not (mem i executed) && all_executed b.deps executed
    then some i
    else next_ready (i + 1) r executed

abbrev pub one_more : Results → SettleReport → SettleReport
one_more results report = record report {
  delivered = suc report.delivered;
  receipt_results = report.receipt_results ++ results;
}

-- The delivery loop, on fuel for its rounds.
unfoldable pub deliver : Modules → ℕ → ℕ → SettleReport → World → Res SettleReport
unfolding next_ready
deliver modules depth zero report w = stop out_of_fuel
deliver modules depth (suc rounds) report w = elim (next_ready 0 w.dag w.executed) [
  | none ↦ ok report w
  | some idx ↦ elim (execute_promise modules depth idx w) [
    | ok results w' ↦ deliver modules depth rounds (one_more results report) w'
    | error w' ↦ deliver modules depth rounds (one_more (none ∷ []) report) w'
    | stop s ↦ stop s
  ]
]

abbrev pub no_report : SettleReport
no_report = record { delivered = 0; receipt_results = []; failures = []; logs = [] }

abbrev pub with_dag : World → List PromiseBatch → World
with_dag w dag = record w {
  receipt_queue = [];
  dag = dag;
  executed = [];
  outcomes = [];
  receipt_traps = [];
  logs = [];
}

unfoldable pub settle_receipts : Modules → ℕ → ℕ → World → Res SettleReport
unfolding requeue deliver
settle_receipts modules depth rounds w = elim w.receipt_queue [
  | [] ↦ ok no_report w
  | b ∷ queue ↦ elim (requeue (b ∷ queue) [] []) [
    | none ↦ stop panicked
    | some dag ↦ elim (deliver modules depth rounds no_report (with_dag w dag)) [
      | ok report w' ↦
          ok (record report { failures = w'.receipt_traps; logs = w'.logs })
            (record w' { receipt_traps = []; logs = [] })
      | error w' ↦ error w'
      | stop s ↦ stop s
    ]
  ]
]
