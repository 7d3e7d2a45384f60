-- ===== src/Tx/Settle/Rounds.antt =====
-- mod.rs, `settle_receipts`: the delivery ends, with all queued receipts delivered.
use near_mock.Base.{
  ℕ, zero, suc, ◌+◌, ◌≤◌, ◌<◌, ◌≡◌, refl, sym, subst, ap, ◌∙◌, true, false, List, [], ◌∷◌, Option,
  none, some, arith, length, get_elem?, inl, inr, Option-cases,
}
use near_mock.Promise.{PromiseBatch, World, Results, Res, ok, error, stop}
use near_mock.Promise.Call.{Modules}
use near_mock.Promise.Call.Laws.{Kept}
use near_mock.Promise.Execute.{mem, execute_promise}
use near_mock.Promise.Execute.Calls.{IsCausal, AllBelow, Ends}
use near_mock.Promise.Execute.Depth.{execute_promise-Ends}
use near_mock.Promise.Execute.Once.{execute_promise-marked}
use near_mock.Tx.Drain.Count.{left, left-le, left-lt}
use near_mock.Tx.Drain.Rounds.{
  IsInert, inert-KeepsMemo, inert-IsQuiet, Onward, execute_promise-Onward,
}
use near_mock.Tx.Settle.{
  SettleReport, no_report, with_dag, next_ready, one_more, deliver, settle_receipts,
}
use near_mock.Tx.Settle.Causal.{CausalFrom, requeue-identity, next_ready-eq-none}

CausalFrom-AllBelow :
    (dag : List PromiseBatch) (i j : ℕ) (b : PromiseBatch)
    → CausalFrom i dag
    → get_elem? dag j ≡ some b
    → AllBelow (i + j) b.deps
CausalFrom-AllBelow [] i j b c e = cc
CausalFrom-AllBelow (x ∷ r) i zero b c e =
    subst (λ n. AllBelow n b.deps) (plus_zero i) (subst (AllBelow i) (ap (λ o. deps_of o) e) c.0)
  where
    deps_of : Option PromiseBatch → List ℕ
    deps_of none = []
    deps_of (some y) = y.deps

    plus_zero : (n : ℕ) → n ≡ n + 0
    plus_zero n = omega arith
CausalFrom-AllBelow (x ∷ r) i (suc j) b c e =
    subst (λ n. AllBelow n b.deps) (shift i j) (CausalFrom-AllBelow r (suc i) j b c.1 e)
  where
    shift : (m n : ℕ) → suc m + n ≡ m + suc n
    shift m n = omega arith

-- The two ways to say that receipts depend on earlier ones only.
CausalFrom-IsCausal : (dag : List PromiseBatch) → CausalFrom 0 dag → IsCausal dag
CausalFrom-IsCausal dag c j b e =
    subst (λ n. AllBelow n b.deps) (zero_plus j) (CausalFrom-AllBelow dag 0 j b c e)
  where
    zero_plus : (n : ℕ) → 0 + n ≡ n
    zero_plus n = omega arith

next_ready-eq-some :
    (batches : List PromiseBatch) (i idx : ℕ) (executed : List ℕ)
    → next_ready i batches executed ≡ some idx
    → (idx < i + length batches) × (mem idx executed ≡ false)
unfolding next_ready
next_ready-eq-some [] i idx executed e = cc
next_ready-eq-some (b ∷ r) i idx executed e =
    ground (arith, e, next_ready-eq-some r (i + 1) idx executed)

-- A result in which the DAG is `dag` and all of it was executed.
abbrev pub CompletesOn {ℓ} : {A : Type ℓ} → List PromiseBatch → Res A → Type 0
CompletesOn dag (ok a w) = (w.dag ≡ dag) × ((j : ℕ) → j < length dag → mem j w.executed ≡ true)
CompletesOn dag (error w) = ⊥
CompletesOn dag (stop s) = ⊥

module _ (modules : Modules) (inert : IsInert modules) (depth : ℕ) (dag : List PromiseBatch)
    (causal : CausalFrom 0 dag) (deep : length dag ≤ depth) where
  deliver_round :
      (rounds idx : ℕ) (w : World)
      → w.dag ≡ dag
      → idx < length dag
      → mem idx w.executed ≡ false
      → left 0 (length dag) w.executed < suc rounds
      → (w' : World)
      → (w'.dag ≡ w.dag) × ((j : ℕ) → mem j w.executed ≡ true → mem j w'.executed ≡ true)
      → mem idx w'.executed ≡ true
      → (w'.dag ≡ dag) × (left 0 (length dag) w'.executed < rounds)
  deliver_round rounds idx w same inside before enough w' on now = (
    on.0 ∙ same,
    omega (
      arith,
      enough,
      left-lt (length dag) 0 idx w.executed w'.executed on.1 (omega arith) (omega (arith, inside))
          before now,
    ),
  )

  deliver-CompletesOn :
      (rounds : ℕ) (report : SettleReport) (w : World)
      → w.dag ≡ dag
      → left 0 (length dag) w.executed < rounds
      → CompletesOn dag (deliver modules depth rounds report w)
  unfolding deliver
  deliver-CompletesOn zero report w same enough = absurd (omega (arith, enough))
  deliver-CompletesOn (suc rounds) report w same enough =
      elim (Option-cases (next_ready 0 w.dag w.executed)) [
        | inl e ↦
            rw (e, deliver)
              (
                same,
                (λ j h.
                    next_ready-eq-none dag 0 w.executed causal (λ k lt. absurd (omega arith))
                      (subst (λ d. next_ready 0 d w.executed ≡ none) same e) j (omega (arith, h))),
              )
        | inr (idx, e) ↦
            let (inside, before) =
              next_ready-eq-some dag 0 idx w.executed
                (subst (λ d. next_ready 0 d w.executed ≡ some idx) same e) in
            let in_dag = subst (λ d. idx < length d) (sym same) (plain idx inside) in
            rw (e, deliver)
              (go idx (plain idx inside) before (execute_promise modules depth idx w)
                (execute_promise-Onward modules inert depth idx w)
                (execute_promise-marked modules (inert-KeepsMemo modules inert) depth idx w)
                (execute_promise-Ends modules w idx depth (inert-IsQuiet modules inert)
                  (subst IsCausal (sym same) (CausalFrom-IsCausal dag causal)) in_dag
                  (omega (arith, inside, deep)))
                (deliver-CompletesOn rounds))
      ]
    where
      plain : (n : ℕ) → n < 0 + length dag → n < length dag
      plain n h = omega (arith, h)

      go :
          (idx : ℕ)
          → idx < length dag
          → mem idx w.executed ≡ false
          → (r : Res Results) → Kept (Onward w.dag w.executed) r
          → Kept (λ m. mem idx m.1 ≡ true) r
          → Ends w.dag r
          → ((n : SettleReport) (v : World)
              → v.dag ≡ dag
              → left 0 (length dag) v.executed < rounds
              → CompletesOn dag (deliver modules depth rounds n v))
          → CompletesOn dag (elim r [
            | ok results w' ↦ deliver modules depth rounds (one_more results report) w'
            | error w' ↦ deliver modules depth rounds (one_more (none ∷ []) report) w'
            | stop s ↦ stop s
          ])
      go idx inside before (ok x w') on now ends next =
          let (d, l) = deliver_round rounds idx w same inside before enough w' on now in
          next (one_more x report) w' d l
      go idx inside before (error w') on now ends next =
          let (d, l) = deliver_round rounds idx w same inside before enough w' on now in
          next (one_more (none ∷ []) report) w' d l
      go idx inside before (stop s) on now ends next = ends

-- The delivery of a queue in which each receipt depends on earlier ones only ends, with every receipt
-- of the queue in the DAG in its place and executed, a failing one included, if contracts schedule
-- nothing and there is fuel for the length of the queue.
pub settle_receipts-CompletesOn :
    (modules : Modules) (depth rounds : ℕ) (w : World) (b : PromiseBatch)
    (queue : List PromiseBatch)
    → IsInert modules
    → w.receipt_queue ≡ b ∷ queue
    → CausalFrom 0 (b ∷ queue)
    → length (b ∷ queue) ≤ depth
    → length (b ∷ queue) < rounds
    → CompletesOn (b ∷ queue) (settle_receipts modules depth rounds w)
unfolding settle_receipts
settle_receipts-CompletesOn modules depth rounds w b queue inert queued causal deep enough =
    rw (queued, settle_receipts, requeue-identity (b ∷ queue) causal)
      (go (deliver modules depth rounds no_report (with_dag w (b ∷ queue))) (
        deliver-CompletesOn modules inert depth (b ∷ queue) causal deep rounds no_report
          (with_dag w (b ∷ queue)) refl (omega (arith, enough, left-le (length (b ∷ queue)) 0 []))))
  where
    go :
        (r : Res SettleReport)
        → CompletesOn (b ∷ queue) r
        → CompletesOn (b ∷ queue) (elim r [
          | ok report w' ↦
              ok
                (record report { failures = w'.receipt_traps; logs = w'.logs })
                (record w' { receipt_traps = []; logs = [] })
          | error w' ↦ error w'
          | stop s ↦ stop s
        ])
    go (ok report w') h = h
    go (error w') h = h
    go (stop s) h = h
