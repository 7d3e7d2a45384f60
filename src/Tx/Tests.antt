-- ===== src/Tx/Tests.antt =====
-- Runs of mod.rs: a transaction that traps with a deposit attached, a drained DAG, a settled queue.
use near_mock.Tx.Panics.Extracted.{Extracted, extract_panic-Extracted}
use near_mock.Tx.Panics.{extract_panic, marker, panicked_text, unreachable_class}
use near_mock.Base.{
  zero, suc, subst, ap, ℕ, ◌+◌, ◌<◌, ◌^◌, ◌≡◌, ◌++◌, refl, Bool, true, false, List, [], ◌∷◌, Option,
  none, some, Bytes, arith, if◌then◌else◌, ◌==◌,
}
use near_mock.Base.{bytes_Key}
use near_mock.Base.Map.{Map}
use near_mock.State.{MockState}
use near_mock.State.Balance.{bal_key, read_amount}
use near_mock.Promise.{transfer, PromiseBatch, World}
use near_mock.Promise.Call.{Ran, trapped, Modules}
use near_mock.Promise.Call.Laws.{Stable}
use near_mock.Gas.{default}
use near_mock.Gas.Staking.{RunCfg}
use near_mock.Base.{◌∙◌}
use near_mock.Host.Guest.{HostCall, write}
use near_mock.Host.Program.{stop, call}
use near_mock.Host.Program.Contracts.{Code, start_of}
use near_mock.Host.{Out, done, trap}
use near_mock.Host.Guest.Tame.{Tame, After}
use near_mock.Host.Guest.Atomic.{AllTame, guest_modules, guest_modules-IsInert}
use near_mock.Tx.Drain.{drain, AllExecuted, drain-AllExecuted}
use near_mock.Promise.Execute.Calls.{IsCausal, AllBelow}
use near_mock.Tx.Drain.Rounds.{IsInert, Completes, drain-Completes}
use near_mock.Tx.Settle.{settle_receipts}
use near_mock.Tx.Settle.Rounds.{CompletesOn, settle_receipts-CompletesOn}
use near_mock.Tx.Entry.{Request, execute_tx}
use near_mock.Tx.Entry.Rollback.{RolledBack, ready, execute_tx-rolls_back}
use near_mock.Tx.Settle.{no_report, deliver}
use near_mock.Tx.Settle.Causal.{
  CausalFrom, HasCausal, Aliased, requeue-aliases, AllDelivered, deliver-AllDelivered,
}

-- Account "a" has 10.
abbrev storage : Map Bytes Bytes
storage = (97 ∷ 1 ∷ 0 ∷ 110 ∷ 101 ∷ 97 ∷ 114 ∷ 45 ∷ 98 ∷ 97 ∷ 108 ∷ [], 49 ∷ 48 ∷ []) ∷ []

abbrev pay : PromiseBatch
pay = record {
  deps = [];
  account = 98 ∷ [];
  creator = 97 ∷ [];
  actions = transfer 3 ∷ [];
  is_yield = false;
}

abbrev join : PromiseBatch
join = record { deps = 0 ∷ []; account = []; creator = 97 ∷ []; actions = []; is_yield = false }

abbrev world : World
world = record {
  st = record { storage = storage; registers = []; return_data = none; view = false; touched = [] };
  dag = pay ∷ join ∷ [];
  executed = [];
  outcomes = [];
  promise_results = [];
  mirror = [];
  pending_return = some 1;
  fail_receipts = [];
  receipt_traps = [];
  exec_ctx = none;
  current_deposit = none;
  logs = [];
  receipt_queue = [];
  defer_receipts = false;
}

-- The contract "a" writes to the storage and traps.
abbrev wipe : World → World
wipe w = record w { st = record w.st { storage = [] } }

abbrev code_of : Bytes → World → Ran
code_of method w = trapped (wipe w) none

abbrev modules : Modules
modules account = if account == 97 ∷ [] then some code_of else none

abbrev no_modules : Modules
no_modules account = none

abbrev unchanged : Bytes → World → World
unchanged account w = w

abbrev request : Request
request = record {
  contract_acct = 97 ∷ [];
  method = [];
  args = [];
  signer = 98 ∷ [];
  attach = 5;
  fail_receipts = [];
  view = false;
}

fits : read_amount storage (bal_key (97 ∷ [])) + 5 < 2 ^ 128
unfolding read_amount bal_key near_mock.State.prefixed_key near_mock.Base.Decimal.parse
fits = omega arith

execute_tx-rolls_back_example :
    RolledBack (97 ∷ []) storage (execute_tx modules unchanged 9 9 request world)
execute_tx-rolls_back_example =
    execute_tx-rolls_back modules unchanged 9 9 request world code_of refl refl fits
      (wipe (ready request world)) none refl

drain-AllExecuted_example : AllExecuted (drain no_modules 9 9 0 world)
drain-AllExecuted_example = drain-AllExecuted no_modules 9 9 0 world

world-CausalFrom : CausalFrom 0 (pay ∷ join ∷ [])
world-CausalFrom = (tt, ((omega arith, tt), tt))

not_known : (code : Bytes → World → Ran) → ¬ (none ≡ some code)
not_known code e = cc

no_modules-Stable : Stable no_modules HasCausal
no_modules-Stable account code method w e c = absurd (not_known code e)

deliver-AllDelivered_example : AllDelivered (deliver no_modules 9 9 no_report world)
deliver-AllDelivered_example =
    deliver-AllDelivered no_modules no_modules-Stable 9 9 no_report world world-CausalFrom

-- The second receipt of the second transaction depends on the first one of its own.
requeue-aliases_example : Aliased (pay ∷ join ∷ []) (pay ∷ join ∷ []) 1 join
requeue-aliases_example =
    requeue-aliases (pay ∷ join ∷ []) (pay ∷ join ∷ []) world-CausalFrom world-CausalFrom 1 join
      refl (omega arith)

-- Each method of each contract writes byte 5 under the key 7.
abbrev writer : Code HostCall
writer = record {
  program = call (write 1 0 1 1 0) (λ r vm. stop);
  memory = 7 ∷ 5 ∷ [];
  gas = 1000000000000;
}

abbrev codes : Bytes → Option (Bytes → Option (Code HostCall))
codes account = some (λ method. some writer)

abbrev cfg : RunCfg
cfg = record { gas = default; staking = true }

abbrev writers : Modules
writers = guest_modules cfg codes

rests_inert : (o : Out) → After (λ r vm. Unit) o
rests_inert (done r vm) = tt
rests_inert (trap e vm) = tt

writer-Tame : (arg : Bytes) (w : World) → Tame cfg arg writer.program (start_of writer w)
writer-Tame arg w = ((omega arith, omega arith), rests_inert _)

by_method_or : Option (Bytes → Option (Code HostCall)) → Bytes → Option (Code HostCall)
by_method_or none method = none
by_method_or (some by_method) method = by_method method

code_or_writer : Option (Code HostCall) → Code HostCall
code_or_writer none = writer
code_or_writer (some c) = c

writers-AllTame : AllTame cfg codes
unfolding by_method_or code_or_writer
writers-AllTame account method by_method c w known here =
    let same : writer ≡ c = ap code_or_writer (ap (λ o. by_method_or o method) known ∙ here) in
    subst (λ (d : Code HostCall). (arg : Bytes) → Tame cfg arg d.program (start_of d w)) same
      (λ arg. writer-Tame arg w) _

writers-IsInert : IsInert writers
writers-IsInert = guest_modules-IsInert cfg codes writers-AllTame

no_batch : (b : PromiseBatch) → ¬ (none ≡ some b)
no_batch b e = cc

abbrev deps_of : Option PromiseBatch → List ℕ
deps_of none = []
deps_of (some b) = b.deps

world-IsCausal : IsCausal (pay ∷ join ∷ [])
world-IsCausal zero b e = subst (AllBelow 0) (ap (λ o. deps_of o) e) tt
world-IsCausal (suc zero) b e = subst (AllBelow 1) (ap (λ o. deps_of o) e) (omega arith, tt)
world-IsCausal (suc (suc j)) b e = absurd (no_batch b e)

drain-Completes_example : Completes (drain writers 9 9 0 world)
drain-Completes_example =
    drain-Completes writers writers-IsInert 9 9 0 world world-IsCausal (omega arith) (omega arith)

abbrev queued : World
queued = record world { dag = []; receipt_queue = pay ∷ join ∷ [] }

settle_receipts-CompletesOn_example :
    CompletesOn (pay ∷ join ∷ []) (settle_receipts writers 9 9 queued)
settle_receipts-CompletesOn_example =
    settle_receipts-CompletesOn writers 9 9 queued pay (join ∷ []) writers-IsInert refl
      world-CausalFrom (omega arith) (omega arith)

-- "ePANIC: no", without a line break.
abbrev panic_text : Bytes
panic_text = 101 ∷ (marker ++ (110 ∷ 111 ∷ []))

extract_panic-Extracted_example : Extracted panic_text (some (panicked_text ++ (110 ∷ 111 ∷ [])))
unfolding extract_panic near_mock.Base.Trim.trim_end
extract_panic-Extracted_example = extract_panic-Extracted panic_text

-- "internal error: entered unreachable code", the message of `unreachable!()`, is taken for a trap.
own_message_misread :
    extract_panic (
      marker
      ++ (105 ∷ 110 ∷ 116 ∷ 101 ∷ 114 ∷ 110 ∷ 97 ∷ 108 ∷ 32 ∷ 101 ∷ 114 ∷ 114 ∷ 111 ∷ 114 ∷ 58 ∷ 32
          ∷ 101 ∷ 110 ∷ 116 ∷ 101 ∷ 114 ∷ 101 ∷ 100 ∷ 32 ∷ 117 ∷ 110 ∷ 114 ∷ 101 ∷ 97 ∷ 99 ∷ 104
          ∷ 97 ∷ 98 ∷ 108 ∷ 101 ∷ 32 ∷ 99 ∷ 111 ∷ 100 ∷ 101 ∷ []))
    ≡ some unreachable_class
unfolding extract_panic
own_message_misread = refl
