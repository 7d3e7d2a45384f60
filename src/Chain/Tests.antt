-- ===== src/Chain/Tests.antt =====
-- chain.rs: a deferred call that makes one promise, and a clock.
use near_mock.Base.{◌≡◌, refl, true, false, [], ◌∷◌, ◌==◌, if◌then◌else◌, none, some, Bytes}
use near_mock.Base.{ℕ_eq}
use near_mock.Promise.{World, PromiseBatch, ok}
use near_mock.Promise.Call.{Modules, Ran, returned, trapped}
use near_mock.Chain.{CallBuilder, CallOutcome, chain_call, fire, fire_deferred, set_defer_receipts}
use near_mock.Chain.Deferred.{call_start, after_trap, Queued, fire-fire_deferred}

abbrev alice : Bytes
alice = 97 ∷ []

abbrev one_batch : PromiseBatch
one_batch = record { deps = []; account = alice; creator = alice; actions = []; is_yield = false }

abbrev calm : World
calm = record {
  st = record { storage = []; registers = []; return_data = none; view = false; touched = [] };
  dag = [];
  executed = [];
  outcomes = [];
  promise_results = [];
  mirror = [];
  pending_return = none;
  fail_receipts = [];
  receipt_traps = [];
  exec_ctx = none;
  current_deposit = none;
  logs = [];
  receipt_queue = one_batch ∷ [];
  defer_receipts = false;
}

abbrev pushes : Bytes → World → Ran
pushes method w = returned (record w { dag = one_batch ∷ [] })

abbrev started : Bytes → World → World
started account w = w

abbrev order_of : CallBuilder
order_of = chain_call alice alice (109 ∷ [])

-- The method 120 traps, and all others make one batch.
abbrev traps_or_pushes : Bytes → World → Ran
traps_or_pushes [] w = pushes [] w
traps_or_pushes (b ∷ r) w = if b == 120 then trapped w none else pushes (b ∷ r) w

abbrev both : Modules
both account = some traps_or_pushes

abbrev failing : CallBuilder
failing = chain_call alice alice (120 ∷ [])

abbrev trap_world : World
trap_world = call_start failing (set_defer_receipts true calm)

abbrev next_start : World
next_start = call_start order_of (after_trap both started 0 0 failing calm trap_world)

abbrev next_left : World
next_left = record next_start { dag = one_batch ∷ [] }

fire-fire_deferred_example :
    ((o : CallOutcome) × (fire_deferred both started 0 0 failing calm
        ≡ ok o (after_trap both started 0 0 failing calm trap_world))
      × (o.ok ≡ false))
    × ((o : CallOutcome) × (w2 : World) × (fire both started 0 0 order_of
            (after_trap both started 0 0 failing calm trap_world)
          ≡ ok o w2)
        × Queued o next_left w2)
unfolding chain_call near_mock.Tx.Entry.attach_deposit near_mock.Tx.Entry.begin
fire-fire_deferred_example =
    fire-fire_deferred both started 0 0 failing order_of calm trap_world next_left none
      traps_or_pushes traps_or_pushes refl refl refl refl refl refl
