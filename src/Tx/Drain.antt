-- ===== src/Tx/Drain.antt =====
-- mod.rs, the loop of `execute_tx` over the receipts that nothing has executed yet.
pub mod Count
pub mod Rounds
use near_mock.Base.{
  ℕ, zero, suc, ◌+◌, ◌≤◌, ◌<◌, ◌≡◌, true, List, [], ◌∷◌, Option, none, some, arith, length,
  if◌then◌else◌, Option-cases, inl, inr, nat_eq_iff,
}
use near_mock.Promise.{PromiseBatch, World, Results, Res, ok, error, stop, out_of_fuel}
use near_mock.Promise.Call.{Modules}
use near_mock.Promise.Execute.{mem, execute_promise}

-- The first index from `i` on, of a batch of `batches`, that is not executed.
unfoldable pub next_unexecuted : ℕ → List PromiseBatch → List ℕ → Option ℕ
next_unexecuted i [] executed = none
next_unexecuted i (b ∷ r) executed =
    if mem i executed then next_unexecuted (i + 1) r executed else some i

-- The loop, on fuel for its rounds; `depth` is the fuel of each execution. A failing receipt is
-- counted.
unfoldable pub drain : Modules → ℕ → ℕ → ℕ → World → Res ℕ
unfolding next_unexecuted
drain modules depth zero failures w = stop out_of_fuel
drain modules depth (suc rounds) failures w = elim (next_unexecuted 0 w.dag w.executed) [
  | none ↦ ok failures w
  | some idx ↦ elim (execute_promise modules depth idx w) [
    | ok r w' ↦ drain modules depth rounds failures w'
    | error w' ↦ drain modules depth rounds (suc failures) w'
    | stop s ↦ stop s
  ]
]

next_unexecuted-eq-none :
    (i : ℕ) (batches : List PromiseBatch) (executed : List ℕ) (j : ℕ)
    → next_unexecuted i batches executed ≡ none
    → i ≤ j
    → j < i + length batches
    → mem j executed ≡ true
unfolding next_unexecuted
next_unexecuted-eq-none i [] executed j e lo hi = absurd (omega arith)
next_unexecuted-eq-none i (b ∷ r) executed j e lo hi =
    ground (arith, next_unexecuted-eq-none (i + 1) r executed j, nat_eq_iff i j)

-- All receipts of the world of a result are executed.
abbrev pub AllExecuted {ℓ} : {A : Type ℓ} → Res A → Type 0
AllExecuted (ok a w) = (j : ℕ) → j < length w.dag → mem j w.executed ≡ true
AllExecuted (error w) = ⊥
AllExecuted (stop s) = Unit

-- When the loop ends, every receipt of the DAG is executed, those that receipts pushed while it ran
-- included; a failing receipt does not end it.
pub drain-AllExecuted :
    (modules : Modules) (depth rounds failures : ℕ) (w : World)
    → AllExecuted (drain modules depth rounds failures w)
unfolding drain
drain-AllExecuted modules depth zero failures w = tt
drain-AllExecuted modules depth (suc rounds) failures w =
    elim (Option-cases (next_unexecuted 0 w.dag w.executed)) [
      | inl e ↦
          rw (e, drain)
            (λ j h. next_unexecuted-eq-none 0 w.dag w.executed j e (omega arith) (omega arith))
      | inr (idx, e) ↦
          rw (e, drain)
            (go (execute_promise modules depth idx w) (drain-AllExecuted modules depth rounds))
    ]
  where
    go :
        (r : Res Results)
        → ((n : ℕ) (v : World) → AllExecuted (drain modules depth rounds n v))
        → AllExecuted (elim r [
          | ok x w' ↦ drain modules depth rounds failures w'
          | error w' ↦ drain modules depth rounds (suc failures) w'
          | stop s ↦ stop s
        ])
    go (ok x w') h = h failures w'
    go (error w') h = h (suc failures) w'
    go (stop s) h = tt
