-- ===== src/Chain/Deferred.antt =====
-- chain.rs, `fire_deferred` and `fire`: the deferral of a call and of the call after it.
use near_mock.Base.{
  ℕ, ◌≡◌, refl, ap, ◌∙◌, Bool, true, false, List, [], ◌++◌, none, some, Bytes, ltb, Option,
  Bool-cases, inl, inr,
}
use near_mock.Promise.{World, PromiseBatch, ok, with_storage, fail_receipts_set}
use near_mock.Promise.Call.{Modules, Ran, returned, trapped}
use near_mock.Tx.{entry_failed, fresh_tx_state}
use near_mock.Tx.Entry.{
  Request, credit_attach, without_attach, begin, attach_deposit, execute_tx, after_entry, commit,
  finish, queue_receipts, entry_data,
}
use near_mock.Chain.{
  CallOutcome, CallBuilder, from_outcome, request_of, differ, flip_view, mock_state_view_set,
  set_defer_receipts, fire, fire_deferred,
}

-- What the view flag has no part in.
abbrev Receipts : Type 0
Receipts = List PromiseBatch × List PromiseBatch × Bool

abbrev receipts : World → Receipts
receipts w = (w.receipt_queue, w.dag, w.defer_receipts)

flip_view-receipts :
    (view saved to : Bool) (w : World) → receipts (flip_view view saved to w) ≡ receipts w
unfolding flip_view mock_state_view_set
flip_view-receipts view saved to w = elim (Bool-cases (differ view saved)) [
  | inl e ↦ rw (e, flip_view) refl
  | inr e ↦ rw (e, flip_view) refl
]

-- The world in which the code of a call begins.
abbrev pub call_start : CallBuilder → World → World
call_start b w =
    attach_deposit (request_of b) (begin (request_of b) (flip_view b.view w.st.view b.view w))

begin-defer_receipts : (q : Request) (w : World) → (begin q w).defer_receipts ≡ w.defer_receipts
unfolding begin fresh_tx_state fail_receipts_set
begin-defer_receipts q w = refl

call_start-defer_receipts :
    (b : CallBuilder) (w : World) → (call_start b w).defer_receipts ≡ w.defer_receipts
unfolding attach_deposit credit_attach
call_start-defer_receipts b w =
    let begun = begin (request_of b) (flip_view b.view w.st.view b.view w) in
    let kept =
      begin-defer_receipts (request_of b) (flip_view b.view w.st.view b.view w)
      ∙ ap (λ r. r.2) (flip_view-receipts b.view w.st.view b.view w) in
    elim (Bool-cases (ltb 0 b.attach)) [
      | inl e ↦ rw (e, attach_deposit) kept
      | inr e ↦ rw (e, attach_deposit) kept
    ]

-- What a call that queues its receipts does: the outcome is good without any receipt's result, and the
-- batches that the code left in `w1` stand at the end of the queue, in order.
abbrev pub Queued : CallOutcome → World → World → Type 0
Queued o w1 w2 =
    (o.ok ≡ true)
    × (o.receipt_results ≡ [])
    × (w2.receipt_queue ≡ w1.receipt_queue ++ w1.dag)
    × (w2.dag ≡ [])

module _ (modules : Modules) (started : Bytes → World → World) (depth rounds : ℕ) where
  fire-Queued :
      (b : CallBuilder) (w w1 : World) (code : Bytes → World → Ran)
      → modules b.contract ≡ some code
      → code b.method (call_start b w) ≡ returned w1
      → w1.defer_receipts ≡ true
      → (o : CallOutcome) × (w2 : World) × (fire modules started depth rounds b w ≡ ok o w2)
        × Queued o w1 w2
  unfolding fire execute_tx after_entry commit finish queue_receipts from_outcome
  fire-Queued b w w1 code known ran deferring =
      let w2 = record (queue_receipts w1) {
        receipt_traps = [];
        logs = [];
        current_deposit = none;
      } in
      let kept = flip_view-receipts b.view w.st.view w.st.view w2 in
      (
        record {
          ok = true;
          return_data = entry_data w1;
          receipt_results = [];
          entry_trapped = false;
          error = none;
          receipt_failures = w1.receipt_traps;
          orphan_failures = 0;
          logs = w1.logs;
        },
        flip_view b.view w.st.view w.st.view w2,
        rw (known, ran, deferring, fire, execute_tx, after_entry, commit, finish) refl,
        (refl, refl, ap (λ r. r.0) kept, ap (λ r. r.1) kept),
      )

  -- What a deferred call leaves whose code traps in `left`.
  abbrev pub after_trap : CallBuilder → World → World → World
  after_trap b w left =
      let start = call_start b (set_defer_receipts true w) in
      flip_view b.view w.st.view w.st.view
        (record (with_storage left
          (without_attach (request_of b) (started b.contract start).st.storage)) {
            receipt_traps = [];
            logs = [];
            current_deposit = none;
          })

  after_trap-defer_receipts :
      (b : CallBuilder) (w left : World)
      → (after_trap b w left).defer_receipts ≡ left.defer_receipts
  after_trap-defer_receipts b w left =
      ap (λ r. r.2) (flip_view-receipts b.view w.st.view w.st.view _)

  fire_deferred-trapped :
      (b : CallBuilder) (w left : World) (line : Option Bytes) (code : Bytes → World → Ran)
      → modules b.contract ≡ some code
      → code b.method (call_start b (set_defer_receipts true w)) ≡ trapped left line
      → (o : CallOutcome) × (fire_deferred modules started depth rounds b w
          ≡ ok o (after_trap b w left))
        × (o.ok ≡ false)
  unfolding fire_deferred fire execute_tx after_entry finish from_outcome set_defer_receipts
  fire_deferred-trapped b w left line code known ran = (
    record {
      ok = false;
      return_data = none;
      receipt_results = [];
      entry_trapped = true;
      error = some (entry_failed line);
      receipt_failures = left.receipt_traps;
      orphan_failures = 0;
      logs = left.logs;
    },
    rw (known, ran, fire_deferred, fire, execute_tx, after_entry, finish) refl,
    refl,
  )

  -- A deferred call `b` whose code traps is not ok and leaves the deferral on: the next call `c`, which is
  -- a plain one, does not run the receipts that its code makes but queues them, although it returns.
  -- Neither code changes the flag of the deferral, which no host function does.
  pub fire-fire_deferred :
      (b c : CallBuilder) (w left w1 : World) (line : Option Bytes)
      (code next : Bytes → World → Ran)
      → modules b.contract ≡ some code
      → code b.method (call_start b (set_defer_receipts true w)) ≡ trapped left line
      → left.defer_receipts ≡ (call_start b (set_defer_receipts true w)).defer_receipts
      → modules c.contract ≡ some next
      → next c.method (call_start c (after_trap b w left)) ≡ returned w1
      → w1.defer_receipts ≡ (call_start c (after_trap b w left)).defer_receipts
      → ((o : CallOutcome) × (fire_deferred modules started depth rounds b w
            ≡ ok o (after_trap b w left))
          × (o.ok ≡ false))
        × ((o : CallOutcome) × (w2 : World) × (fire modules started depth rounds c
                (after_trap b w left)
              ≡ ok o w2)
            × Queued o w1 w2)
  unfolding set_defer_receipts
  fire-fire_deferred b c w left w1 line code next known traps flag known_next ran flag_next =
      let on =
        flag_next
        ∙ call_start-defer_receipts c (after_trap b w left)
        ∙ after_trap-defer_receipts b w left
        ∙ flag
        ∙ call_start-defer_receipts b (set_defer_receipts true w) in
      (
        fire_deferred-trapped b w left line code known traps,
        fire-Queued c (after_trap b w left) w1 next known_next ran on,
      )
