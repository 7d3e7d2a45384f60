-- ===== src/Promise/Tests.antt =====
-- Runs of the promise engine: a transfer, a combinator over it, and a contract that fails.
use near_mock.Base.{
  zero, suc, subst, ℕ, ap, ◌<◌, ◌^◌, ◌+◌, ◌≡◌, ◌≢◌, refl, Bool, true, false, List, [], ◌∷◌, ◌++◌,
  Option, none, some, Bytes, if◌then◌else◌, ◌==◌, arith,
}
use near_mock.Base.{bytes_Key}
use near_mock.Base.Map.{Map, lookup, IsUnique}
use near_mock.State.{MockState, in_partition}
use near_mock.State.Balance.{bal_key, read_amount, add_u128}
use near_mock.Promise.{
  PAction, transfer, fn_call, PromiseBatch, World, Results, Res, ok, error, stop,
}
use near_mock.Promise.Actions.{Progress, transfer_action, revert, Touched}
use near_mock.Promise.Actions.Laws.{
  transfer_action-Transferred, Transferred, last_recorded, lookup-revert,
}
use near_mock.Promise.Call.{Ran, trapped, Modules, sub_execute, prepare}
use near_mock.Promise.Call.Laws.{KeepsMemo}
use near_mock.Promise.Call.Isolation.{Isolated, sub_execute-Isolated}
use near_mock.Promise.Call.Traps.{FailedWith, sub_execute-reverts, sub_execute-keeps_deposit}
use near_mock.Promise.Execute.{execute_promise, mark_executed}
use near_mock.Promise.Execute.Calls.{IsQuiet, IsCausal, AllBelow, Ends}
use near_mock.Promise.Execute.Depth.{execute_promise-Ends}
use near_mock.Promise.Execute.Once.{Recorded, execute_promise-Recorded, execute_promise-replays}

abbrev alice : Bytes
alice = 97 ∷ []

abbrev bob : Bytes
bob = 98 ∷ []

abbrev start_storage : Map Bytes Bytes
start_storage = (97 ∷ 1 ∷ 0 ∷ 110 ∷ 101 ∷ 97 ∷ 114 ∷ 45 ∷ 98 ∷ 97 ∷ 108 ∷ [], 49 ∷ 48 ∷ []) ∷ []

abbrev start_state : MockState
start_state = record {
  storage = start_storage;
  registers = [];
  return_data = none;
  view = false;
  touched = [];
}

abbrev pay : PromiseBatch
pay = record {
  deps = [];
  account = bob;
  creator = alice;
  actions = transfer 3 ∷ [];
  is_yield = false;
}

abbrev both : PromiseBatch
both = record { deps = 0 ∷ 0 ∷ []; account = []; creator = alice; actions = []; is_yield = false }

abbrev w0 : World
w0 = record {
  st = start_state;
  dag = pay ∷ both ∷ [];
  executed = [];
  outcomes = [];
  promise_results = [];
  mirror = [];
  pending_return = none;
  fail_receipts = [];
  receipt_traps = [];
  exec_ctx = none;
  current_deposit = none;
  logs = [];
  receipt_queue = [];
  defer_receipts = false;
}

-- The account `b` has a contract of which every method traps, after a write to another account.
abbrev spoiled : World → World
spoiled w = record w { st = record w.st { storage = (120 ∷ 1 ∷ 120 ∷ [], []) ∷ w.st.storage } }

abbrev code_of : Bytes → World → Ran
code_of method w = trapped (spoiled w) none

abbrev modules : Modules
modules account = if account == bob then some code_of else none

abbrev world_of : Res Results → World
world_of (ok r w) = w
world_of (error w) = w
world_of (stop s) = w0

abbrev results_of : Res Results → Results
results_of (ok r w) = r
results_of (error w) = []
results_of (stop s) = []

abbrev no_modules : Modules
no_modules account = none

abbrev first : Res Results
first = execute_promise no_modules 1 0 w0

abbrev second : Res Results
second = execute_promise no_modules 2 1 (world_of first)

first_ok : first ≡ ok (some [] ∷ []) (world_of first)
unfolding execute_promise bal_key near_mock.Promise.Actions.plain_action read_amount
    near_mock.State.prefixed_key near_mock.Base.Decimal.parse
first_ok = refl

second_ok : second ≡ ok (some [] ∷ some [] ∷ []) (world_of second)
unfolding execute_promise bal_key near_mock.Promise.Actions.plain_action read_amount
    near_mock.State.prefixed_key near_mock.Base.Decimal.parse
second_ok = refl

no_modules-KeepsMemo : KeepsMemo no_modules
no_modules-KeepsMemo account code method w e = (cc, cc)

modules_known : modules bob ≡ some code_of
modules_known = refl

execute_promise-Recorded_example : Recorded 1 (execute_promise no_modules 2 1 w0)
execute_promise-Recorded_example = execute_promise-Recorded no_modules no_modules-KeepsMemo 2 1 w0

execute_promise-replays_example :
    execute_promise no_modules 1 0 (world_of second)
    ≡ ok (some [] ∷ []) (mark_executed 0 (world_of second))
execute_promise-replays_example =
    execute_promise-replays no_modules no_modules-KeepsMemo 1 0 w0 (some [] ∷ []) (world_of first)
      first_ok 2 1 (some [] ∷ some [] ∷ []) (world_of second) second_ok 0

start-IsUnique : IsUnique w0.st.storage
start-IsUnique = (refl, tt)

alice-bob : alice ≢ bob
alice-bob = λ e. omega (arith, ap be_first e)
  where
    be_first : Bytes → ℕ
    be_first [] = 0
    be_first (c ∷ cs) = c

sub_execute-reverts_example :
    FailedWith
      (λ m.
        (k : Bytes)
        → lookup k m ≡ (
            if in_partition bob k
            then lookup k start_storage
            else lookup k (spoiled (prepare bob [] alice 0 w0)).st.storage))
      (sub_execute modules bob [] [] alice 0 w0)
sub_execute-reverts_example =
    sub_execute-reverts modules bob [] [] alice w0 code_of modules_known start-IsUnique refl

sub_execute-keeps_deposit_example :
    FailedWith
      (λ m.
        (read_amount m (bal_key bob) ≡ add_u128 (read_amount start_storage (bal_key bob)) 4)
        × (read_amount m (bal_key alice)
            ≡ add_u128
                (read_amount (spoiled (prepare bob [] alice 4 w0)).st.storage (bal_key alice))
                4))
      (sub_execute modules bob [] [] alice 4 w0)
sub_execute-keeps_deposit_example =
    sub_execute-keeps_deposit modules bob [] [] alice w0 code_of modules_known 4 start-IsUnique
      (omega arith, tt) (omega arith, tt) alice-bob (omega arith) refl

sub_execute-Isolated_example : Isolated w0 (sub_execute modules bob [] [] alice 4 w0)
sub_execute-Isolated_example = sub_execute-Isolated modules bob [] [] alice 4 w0

abbrev nothing_done : Progress
nothing_done = record { storage = start_storage; touched = []; out = [] }

bob_fits : read_amount start_storage (bal_key bob) + 3 < 2 ^ 128
unfolding read_amount bal_key near_mock.State.prefixed_key
bob_fits = omega arith

transfer_action-Transferred_example :
    Transferred alice bob 3 nothing_done (transfer_action alice bob 3 nothing_done)
transfer_action-Transferred_example =
    transfer_action-Transferred alice bob 3 nothing_done alice-bob bob_fits

abbrev recorded : Touched
recorded = (alice, some (1 ∷ [])) ∷ (alice, none) ∷ []

lookup-revert_example :
    lookup alice (revert recorded start_storage)
    ≡ elim (last_recorded alice recorded) [ none ↦ lookup alice start_storage | some v ↦ v ]
lookup-revert_example = lookup-revert recorded start_storage alice

not_known : (code : Bytes → World → Ran) → ¬ (none ≡ some code)
not_known code e = cc

no_batch : (b : PromiseBatch) → ¬ (none ≡ some b)
no_batch b e = cc

abbrev deps_of : Option PromiseBatch → List ℕ
deps_of none = []
deps_of (some b) = b.deps

no_modules-IsQuiet : IsQuiet no_modules
no_modules-IsQuiet account code method w e = absurd (not_known code e)

w0-IsCausal : IsCausal w0.dag
w0-IsCausal zero b e = subst (AllBelow 0) (ap (λ o. deps_of o) e) tt
w0-IsCausal (suc zero) b e =
    subst (AllBelow 1) (ap (λ o. deps_of o) e) (omega arith, (omega arith, tt))
w0-IsCausal (suc (suc j)) b e = absurd (no_batch b e)

execute_promise-Ends_example : Ends w0.dag (execute_promise no_modules 2 1 w0)
execute_promise-Ends_example =
    execute_promise-Ends no_modules w0 1 2 no_modules-IsQuiet w0-IsCausal (omega arith)
      (omega arith)
