-- ===== src/Promise/Execute/Once.antt =====
-- promises.rs, `execute_promise` and its memo: a receipt that ran never runs again.
use near_mock.Base.{
  ℕ, zero, suc, ◌≡◌, refl, subst, sym, true, List, ◌∷◌, none, some, arith, get_elem?, nat_eq_iff,
  inl, inr, Option-cases,
}
use near_mock.Base.{ℕ_eq}
use near_mock.Base.Map.{lookup, insert, lookup-insert}
use near_mock.Promise.{World, Results, Res, ok, error, stop}
use near_mock.Promise.Call.{Modules}
use near_mock.Promise.Call.Laws.{Memo, memo, KeepsMemo, Stable, Kept}
use near_mock.Promise.Execute.{
  mem, mark_executed, and_then, execute_promise_uncached, execute_once, execute_promise,
}
use near_mock.Promise.Execute.Memo.{execute_promise_uncached-Kept, execute_batch-Kept}

module _ (modules : Modules) (P : Memo → Type 0) (stable : Stable modules P)
    (marks : (idx : ℕ) (m : Memo) → P m → P (m.0, idx ∷ m.1, m.2))
    (remembers : (idx : ℕ) (out : Results) (m m' : Memo)
      → P m
      → lookup idx m.0 ≡ none
      → P m'
      → P (insert idx out m'.0, m'.1, m'.2)) where
  execute_once-Kept :
      (run : ℕ → World → Res Results)
      → ((i : ℕ) (w : World) → P (memo w) → Kept P (run i w))
      → (idx : ℕ) (w : World) → P (memo w)
      → Kept P (execute_once modules run idx w)
  unfolding execute_once mark_executed
  execute_once-Kept run h idx w p = elim (Option-cases (lookup idx w.outcomes)) [
    | inr (hit, e) ↦ rw (e, execute_once) (marks idx (memo w) p)
    | inl e ↦
        rw (e, execute_once)
          (go (execute_promise_uncached modules run idx w)
            (execute_promise_uncached-Kept modules P stable marks run h idx w p) e)
  ]
    where
      go :
          (r : Res Results)
          → Kept P r
          → lookup idx w.outcomes ≡ none
          → Kept P
              (and_then r (λ out w'. ok out (record w' { outcomes = insert idx out w'.outcomes })))
      go (ok out w') h' e = remembers idx out (memo w) (memo w') p e h'
      go (error w') h' e = h'
      go (stop s) h' e = h'

  pub execute_promise-Kept :
      (n idx : ℕ) (w : World) → P (memo w) → Kept P (execute_promise modules n idx w)
  unfolding execute_promise
  execute_promise-Kept zero idx w p = tt
  execute_promise-Kept (suc n) idx w p =
      execute_once-Kept (execute_promise modules n) (execute_promise-Kept n) idx w p

-- What an execution of receipt `idx` leaves: its results remembered, and the receipt marked.
abbrev pub Recorded : ℕ → Res Results → Type 0
Recorded idx (ok out w) = (lookup idx w.outcomes ≡ some out) × (mem idx w.executed ≡ true)
Recorded idx (error w) = Unit
Recorded idx (stop s) = Unit

marks-Stable :
    (modules : Modules) → KeepsMemo modules → (i : ℕ) → Stable modules (λ m. mem i m.1 ≡ true)
marks-Stable modules keeps i account code method w e h =
    subst (λ x. mem i x ≡ true) (sym (keeps account code method w e).1) h

outcomes-Stable :
    (modules : Modules)
    → KeepsMemo modules
    → (i : ℕ) (o : Results) → Stable modules (λ m. lookup i m.0 ≡ some o)
outcomes-Stable modules keeps i o account code method w e h =
    subst (λ x. lookup i x ≡ some o) (sym (keeps account code method w e).0) h

mem-mark : (idx : ℕ) (e : List ℕ) → mem idx (idx ∷ e) ≡ true
mem-mark idx e = ground (arith, nat_eq_iff idx idx)

pub mem-cons : (i idx : ℕ) (e : List ℕ) → mem i e ≡ true → mem i (idx ∷ e) ≡ true
mem-cons i idx e h = ground arith

execute_promise-marks :
    (modules : Modules)
    → KeepsMemo modules
    → (i n idx : ℕ) (w : World) → mem i w.executed ≡ true
    → Kept (λ m. mem i m.1 ≡ true) (execute_promise modules n idx w)
execute_promise-marks modules keeps i n idx w h =
    execute_promise-Kept modules (λ m. mem i m.1 ≡ true) (marks-Stable modules keeps i)
      (λ j m p. mem-cons i j m.1 p) (λ j out m m' p e p'. p') n idx w h

execute_promise-outcomes :
    (modules : Modules)
    → KeepsMemo modules
    → (i n idx : ℕ) (o : Results) (w : World) → lookup i w.outcomes ≡ some o
    → Kept (λ m. lookup i m.0 ≡ some o) (execute_promise modules n idx w)
execute_promise-outcomes modules keeps i n idx o w h =
    execute_promise-Kept modules (λ m. lookup i m.0 ≡ some o) (outcomes-Stable modules keeps i o)
      (λ j m p. p) (λ j out m m' p e p'. ground (arith, lookup-insert j i out m'.0, nat_eq_iff j i))
      n idx w h

insert-Recorded :
    (idx : ℕ) (r : Res Results)
    → Kept (λ m. mem idx m.1 ≡ true) r
    → Recorded idx
        (and_then r (λ out w'. ok out (record w' { outcomes = insert idx out w'.outcomes })))
insert-Recorded idx (ok out w) h = (ground (arith, nat_eq_iff idx idx), h)
insert-Recorded idx (error w) h = tt
insert-Recorded idx (stop s) h = tt

uncached-marks :
    (modules : Modules)
    → KeepsMemo modules
    → (n idx : ℕ) (w : World)
    → Kept
        (λ m. mem idx m.1 ≡ true)
        (execute_promise_uncached modules (execute_promise modules n) idx w)
unfolding execute_promise_uncached mark_executed
uncached-marks modules keeps n idx w = elim (Option-cases (get_elem? w.dag idx)) [
  | inl e ↦ rw (e, execute_promise_uncached) tt
  | inr (b, e) ↦
      rw (e, execute_promise_uncached)
        (execute_batch-Kept modules (λ m. mem idx m.1 ≡ true) (marks-Stable modules keeps idx)
          (λ j m p. mem-cons idx j m.1 p) (execute_promise modules n)
          (λ i w' h. execute_promise-marks modules keeps idx n i w' h) idx b (mark_executed idx w)
          (mem-mark idx w.executed))
]

-- Every receipt that gives results is marked as executed, whether it ran or was remembered, and its
-- results are remembered.
pub execute_promise-Recorded :
    (modules : Modules)
    → KeepsMemo modules
    → (n idx : ℕ) (w : World) → Recorded idx (execute_promise modules n idx w)
unfolding execute_promise execute_once mark_executed
execute_promise-Recorded modules keeps zero idx w = tt
execute_promise-Recorded modules keeps (suc n) idx w = elim (Option-cases (lookup idx w.outcomes)) [
  | inr (hit, e) ↦ rw (e, execute_once) (e, mem-mark idx w.executed)
  | inl e ↦
      rw (e, execute_once)
        (insert-Recorded idx (execute_promise_uncached modules (execute_promise modules n) idx w)
          (uncached-marks modules keeps n idx w))
]

execute_promise_hit :
    (modules : Modules) (k idx : ℕ) (w : World) (out : Results)
    → lookup idx w.outcomes ≡ some out
    → execute_promise modules (suc k) idx w ≡ ok out (mark_executed idx w)
unfolding execute_promise execute_once
execute_promise_hit modules k idx w out e = rw (e, execute_once) refl

-- A receipt runs at most once: after it gave results, and after any other receipt ran, executing it
-- again gives the same results and only marks it; no action runs and no storage changes.
pub execute_promise-replays :
    (modules : Modules)
    → KeepsMemo modules
    → (n idx : ℕ) (w : World) (out : Results) (w1 : World)
    → execute_promise modules n idx w ≡ ok out w1
    → (m other : ℕ) (r : Results) (w2 : World) → execute_promise modules m other w1 ≡ ok r w2
    → (k : ℕ) → execute_promise modules (suc k) idx w2 ≡ ok out (mark_executed idx w2)
execute_promise-replays modules keeps n idx w out w1 e1 m other r w2 e2 k =
    let recorded = subst (Recorded idx) e1 (execute_promise-Recorded modules keeps n idx w) in
    let still =
      subst (Kept (λ m'. lookup idx m'.0 ≡ some out)) e2
        (execute_promise-outcomes modules keeps idx m other out w1 recorded.0) in
    execute_promise_hit modules k idx w2 out still

insert-marks :
    (i idx : ℕ) (r : Res Results)
    → Kept (λ m. mem i m.1 ≡ true) r
    → Kept
        (λ m. mem i m.1 ≡ true)
        (and_then r (λ out w'. ok out (record w' { outcomes = insert idx out w'.outcomes })))
insert-marks i idx (ok out w) h = h
insert-marks i idx (error w) h = h
insert-marks i idx (stop s) h = tt

-- A receipt is marked as executed even where its execution ends in an error.
pub execute_promise-marked :
    (modules : Modules)
    → KeepsMemo modules
    → (n idx : ℕ) (w : World) → Kept (λ m. mem idx m.1 ≡ true) (execute_promise modules n idx w)
unfolding execute_promise execute_once mark_executed
execute_promise-marked modules keeps zero idx w = tt
execute_promise-marked modules keeps (suc n) idx w = elim (Option-cases (lookup idx w.outcomes)) [
  | inr (hit, e) ↦ rw (e, execute_once) (mem-mark idx w.executed)
  | inl e ↦
      rw (e, execute_once)
        (insert-marks idx idx (execute_promise_uncached modules (execute_promise modules n) idx w)
          (uncached-marks modules keeps n idx w))
]
