-- ===== src/Tx/Drain/Rounds.antt =====
-- mod.rs, the loop of `execute_tx` over the receipts left: the rounds it takes.
use near_mock.Base.{
  ℕ, zero, suc, ◌≤◌, ◌<◌, ◌≡◌, refl, sym, subst, ◌∙◌, true, false, List, none, some, Bytes, arith,
  length, inl, inr, Option-cases,
}
use near_mock.Promise.{PromiseBatch, World, Results, Res, ok, error, stop}
use near_mock.Promise.Call.{Ran, Modules}
use near_mock.Promise.Call.Laws.{has_crashed, Memo, memo, after, KeepsMemo, Stable, Kept}
use near_mock.Promise.Execute.{mem, execute_promise}
use near_mock.Promise.Execute.Calls.{IsQuiet, IsCausal, Ends, Extends}
use near_mock.Promise.Execute.Depth.{execute_promise-Ends}
use near_mock.Promise.Execute.Once.{execute_promise-Kept, execute_promise-marked, mem-cons}
use near_mock.Tx.Drain.{drain, next_unexecuted, next_unexecuted-eq-none}
use near_mock.Tx.Drain.Count.{left, left-lt, Grows, next_unexecuted-eq-some}

-- Contracts that schedule nothing: the DAG, the marks and the results stay, and none is returned.
abbrev pub IsInert : Modules → Type 0
IsInert modules =
    (account : Bytes) (code : Bytes → World → Ran) (method : Bytes) (w : World)
    → modules account ≡ some code
    → ((after (code method w)).outcomes ≡ w.outcomes)
      × ((after (code method w)).executed ≡ w.executed)
      × ((after (code method w)).dag ≡ w.dag)
      × (w.pending_return ≡ none → (after (code method w)).pending_return ≡ none)
      × (has_crashed (code method w) ≡ false)

pub inert-KeepsMemo : (modules : Modules) → IsInert modules → KeepsMemo modules
inert-KeepsMemo modules inert account code method w e =
    let (a, b, c, d, safe) = inert account code method w e in (a, b)

pub inert-IsQuiet : (modules : Modules) → IsInert modules → IsQuiet modules
inert-IsQuiet modules inert account code method w e =
    let (a, b, c, d, safe) = inert account code method w e in
    (subst (λ x. Extends w.dag x) (sym c) (λ j batch found. (batch, found, refl)), d, safe)

-- The DAG is the old one, and no mark is lost.
abbrev pub Onward : List PromiseBatch → List ℕ → Memo → Type 0
Onward dag executed m = (m.2 ≡ dag) × Grows executed m.1

Onward-Stable :
    (modules : Modules)
    → IsInert modules
    → (dag : List PromiseBatch) (executed : List ℕ) → Stable modules (Onward dag executed)
Onward-Stable modules inert dag executed account code method w e h =
    let (a, b, c, d, safe) = inert account code method w e in
    (c ∙ h.0, (λ j old. subst (λ x. mem j x ≡ true) (sym b) (h.1 j old)))

pub execute_promise-Onward :
    (modules : Modules)
    → IsInert modules
    → (n idx : ℕ) (w : World) → Kept (Onward w.dag w.executed) (execute_promise modules n idx w)
execute_promise-Onward modules inert n idx w =
    execute_promise-Kept modules (Onward w.dag w.executed)
      (Onward-Stable modules inert w.dag w.executed)
      (λ i m p. (p.0, (λ j old. mem-cons j i m.1 (p.1 j old)))) (λ i out m m' p fresh p'. p') n idx
      w (refl, (λ j old. old))

-- After a round in which `idx` was executed, fewer receipts are left.
pub fewer_left :
    (w w' : World) (idx depth rounds : ℕ)
    → idx < length w.dag
    → mem idx w.executed ≡ false
    → Onward w.dag w.executed (memo w')
    → mem idx w'.executed ≡ true
    → IsCausal w.dag
    → length w.dag ≤ depth
    → left 0 (length w.dag) w.executed < suc rounds
    → IsCausal w'.dag × (length w'.dag ≤ depth) × (left 0 (length w'.dag) w'.executed < rounds)
fewer_left w w' idx depth rounds inside before on now causal deep enough =
    subst (λ dag. IsCausal dag × (length dag ≤ depth) × (left 0 (length dag) w'.executed < rounds))
      (sym on.0)
      (
        causal,
        deep,
        omega (
          arith,
          enough,
          left-lt (length w.dag) 0 idx w.executed w'.executed on.1 (omega arith)
              (omega (arith, inside)) before now,
        ),
      )

-- A result, and all receipts are executed.
abbrev pub Completes {ℓ} : {A : Type ℓ} → Res A → Type 0
Completes (ok a w) = (j : ℕ) → j < length w.dag → mem j w.executed ≡ true
Completes (error w) = ⊥
Completes (stop s) = ⊥

-- The loop over the receipts left ends with all of them executed, failing ones included, after no
-- more rounds than there are receipts, if each depends on earlier ones only and contracts schedule
-- nothing.
pub drain-Completes :
    (modules : Modules)
    → IsInert modules
    → (depth rounds failures : ℕ) (w : World) → IsCausal w.dag
    → length w.dag ≤ depth
    → left 0 (length w.dag) w.executed < rounds
    → Completes (drain modules depth rounds failures w)
unfolding drain
drain-Completes modules inert depth zero failures w causal deep enough =
    absurd (omega (arith, enough))
drain-Completes modules inert depth (suc rounds) failures w causal deep enough =
    elim (Option-cases (next_unexecuted 0 w.dag w.executed)) [
      | inl e ↦
          rw (e, drain)
            (λ j h. next_unexecuted-eq-none 0 w.dag w.executed j e (omega arith) (omega (arith, h)))
      | inr (idx, e) ↦
          let (inside, before) = next_unexecuted-eq-some w.dag 0 idx w.executed e in
          rw (e, drain)
            (go idx (omega (arith, inside)) before (execute_promise modules depth idx w)
              (execute_promise-Onward modules inert depth idx w)
              (execute_promise-marked modules (inert-KeepsMemo modules inert) depth idx w)
              (execute_promise-Ends modules w idx depth (inert-IsQuiet modules inert) causal
                (omega (arith, inside)) (omega (arith, inside, deep)))
              (drain-Completes modules inert depth rounds))
    ]
  where
    go :
        (idx : ℕ)
        → idx < length w.dag
        → mem idx w.executed ≡ false
        → (r : Res Results) → Kept (Onward w.dag w.executed) r
        → Kept (λ m. mem idx m.1 ≡ true) r
        → Ends w.dag r
        → ((n : ℕ) (v : World)
            → IsCausal v.dag
            → length v.dag ≤ depth
            → left 0 (length v.dag) v.executed < rounds
            → Completes (drain modules depth rounds n v))
        → Completes (elim r [
          | ok x w' ↦ drain modules depth rounds failures w'
          | error w' ↦ drain modules depth rounds (suc failures) w'
          | stop s ↦ stop s
        ])
    go idx inside before (ok x w') on now ends next =
        let (c, d, l) = fewer_left w w' idx depth rounds inside before on now causal deep enough in
        next failures w' c d l
    go idx inside before (error w') on now ends next =
        let (c, d, l) = fewer_left w w' idx depth rounds inside before on now causal deep enough in
        next (suc failures) w' c d l
    go idx inside before (stop s) on now ends next = ends
