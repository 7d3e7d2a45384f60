-- ===== src/Tx/Settle/Causal.antt =====
-- mod.rs, `settle_receipts`: receipts that depend on earlier ones only are requeued as they are, and
-- all delivered.
use near_mock.Base.{
  ℕ, zero, suc, ◌+◌, ◌≤◌, ◌<◌, ◌≡◌, inl, inr, refl, sym, ap, subst, ◌∙◌, true, List, [], ◌∷◌, ◌++◌,
  Option, ap₂, none, some, arith, length, length-append, get_elem?, Bool-cases, Option-cases,
  nat_eq_iff, nat_eq,
}
use near_mock.Promise.{PromiseBatch, World, Results, Res, ok, error, stop}
use near_mock.Promise.Call.{Modules}
use near_mock.Promise.Execute.{mem, execute_promise}
use near_mock.Promise.Call.Laws.{Memo, Stable, Kept}
use near_mock.Promise.Execute.Once.{execute_promise-Kept}
use near_mock.Promise.Execute.Calls.{AllBelow}
use near_mock.Tx.Settle.{
  SettleReport, remap_deps, requeue, all_executed, next_ready, one_more, deliver,
}

-- The indices from 0 up to `n`.
abbrev pub identity_from : ℕ → ℕ → List ℕ
identity_from i zero = []
identity_from i (suc n) = i ∷ identity_from (suc i) n

get_elem?-identity_from : (n i d : ℕ) → d < n → get_elem? (identity_from i n) d ≡ some (i + d)
get_elem?-identity_from zero i d h = absurd (omega arith)
get_elem?-identity_from (suc n) i zero h = ap some (omega arith)
get_elem?-identity_from (suc n) i (suc d) h =
    get_elem?-identity_from n (suc i) d (omega arith) ∙ ap some (omega arith)

identity_from-snoc : (n i : ℕ) → identity_from i n ++ (i + n) ∷ [] ≡ identity_from i (suc n)
identity_from-snoc zero i = ap (λ j. j ∷ []) (omega arith)
identity_from-snoc (suc n) i =
    ap (λ r. i ∷ r)
      (ap (λ j. identity_from (suc i) n ++ j ∷ []) (omega arith) ∙ identity_from-snoc n (suc i))

remap_deps-identity :
    (n : ℕ) (ds : List ℕ) → AllBelow n ds → remap_deps (identity_from 0 n) ds ≡ some ds
unfolding remap_deps
remap_deps-identity n [] h = refl
remap_deps-identity n (d ∷ ds) h =
    rw (get_elem?-identity_from n 0 d h.0, remap_deps-identity n ds h.1, remap_deps)
      (ap (λ j. some (j ∷ ds)) (omega arith))

-- Each batch depends on earlier ones only, `n` of which come before the list.
abbrev pub CausalFrom : ℕ → List PromiseBatch → Type 0
CausalFrom n [] = Unit
CausalFrom n (b ∷ r) = AllBelow n b.deps × CausalFrom (suc n) r

append-assoc-cons :
    (xs : List PromiseBatch) (b : PromiseBatch) (ys : List PromiseBatch)
    → (xs ++ b ∷ []) ++ ys ≡ xs ++ b ∷ ys
append-assoc-cons [] b ys = refl
append-assoc-cons (x ∷ xs) b ys = ap (λ r. x ∷ r) (append-assoc-cons xs b ys)

append-nil : (xs : List PromiseBatch) → xs ++ [] ≡ xs
append-nil [] = refl
append-nil (x ∷ xs) = ap (λ r. x ∷ r) (append-nil xs)

length-snoc : (xs : List PromiseBatch) (b : PromiseBatch) → length (xs ++ b ∷ []) ≡ suc (length xs)
length-snoc xs b = length-append xs (b ∷ []) ∙ omega arith

requeue-causal :
    (queue dag : List PromiseBatch)
    → CausalFrom (length dag) queue
    → requeue queue (identity_from 0 (length dag)) dag ≡ some (dag ++ queue)
unfolding requeue
requeue-causal [] dag h = ap some (sym (append-nil dag))
requeue-causal (b ∷ queue) dag h =
    let longer = dag ++ b ∷ [] in
    let grown =
      identity_from-snoc (length dag) 0 ∙ ap (identity_from 0) (sym (length-snoc dag b)) in
    rw (remap_deps-identity (length dag) b.deps h.0, requeue)
      (ap (λ r. requeue queue r longer)
          (ap (λ n. identity_from 0 (length dag) ++ n ∷ []) (omega arith) ∙ grown)
        ∙ requeue-causal queue longer
            (subst (λ n. CausalFrom n queue) (sym (length-snoc dag b)) h.1)
        ∙ ap some (append-assoc-cons dag b queue))

-- A queue in which every batch depends on earlier ones only is put into the DAG as it is. The source
-- remaps a dependency through the whole queue, so that is what it does to the receipts of one
-- transaction.
pub requeue-identity :
    (queue : List PromiseBatch) → CausalFrom 0 queue → requeue queue [] [] ≡ some queue
requeue-identity queue h = requeue-causal queue [] h

no_batch : (b : PromiseBatch) → ¬ (none ≡ some b)
no_batch b e = cc

same_batch : (c b : PromiseBatch) → some c ≡ some b → c ≡ b
same_batch c b e = cc

AllBelow-weaken : (m n : ℕ) (ds : List ℕ) → m ≤ n → AllBelow m ds → AllBelow n ds
AllBelow-weaken m n [] le h = h
AllBelow-weaken m n (d ∷ ds) le h = (omega (arith, h.0), AllBelow-weaken m n ds le h.1)

CausalFrom-append :
    (q r : List PromiseBatch) (n : ℕ) → CausalFrom n q → CausalFrom 0 r → CausalFrom n (q ++ r)
CausalFrom-append [] [] n hq hr = tt
CausalFrom-append [] (b ∷ r) n hq hr = weaken (b ∷ r) 0 n (omega arith) hr
  where
    weaken : (s : List PromiseBatch) (i j : ℕ) → i ≤ j → CausalFrom i s → CausalFrom j s
    weaken [] i j le h = h
    weaken (c ∷ s) i j le h =
        (AllBelow-weaken i j c.deps le h.0, weaken s (suc i) (suc j) (omega arith) h.1)
CausalFrom-append (b ∷ q) r n hq hr = (hq.0, CausalFrom-append q r (suc n) hq.1 hr)

get_elem?-append_left :
    (xs ys : List PromiseBatch) (d : ℕ) → d < length xs → get_elem? (xs ++ ys) d ≡ get_elem? xs d
get_elem?-append_left [] ys d h = absurd (omega (arith, h))
get_elem?-append_left (x ∷ xs) ys zero h = refl
get_elem?-append_left (x ∷ xs) ys (suc d) h = get_elem?-append_left xs ys d (omega (arith, h))

get_elem?-append_right :
    (xs ys : List PromiseBatch) (i : ℕ) → get_elem? (xs ++ ys) (length xs + i) ≡ get_elem? ys i
get_elem?-append_right [] ys i = ap (get_elem? ys) (omega arith)
get_elem?-append_right (x ∷ xs) ys i =
    let e : suc (length xs) + i ≡ suc (length xs + i) = omega arith in
    ap (get_elem? (x ∷ (xs ++ ys))) e ∙ get_elem?-append_right xs ys i

CausalFrom-get_elem? :
    (n i : ℕ) (queue : List PromiseBatch) (b : PromiseBatch)
    → CausalFrom n queue
    → get_elem? queue i ≡ some b
    → AllBelow (n + i) b.deps
CausalFrom-get_elem? n i [] b h e = absurd (no_batch b e)
CausalFrom-get_elem? n zero (c ∷ queue) b h e =
    subst (λ (x : PromiseBatch). AllBelow (n + 0) x.deps) (same_batch c b e)
      (AllBelow-weaken n (n + 0) c.deps (omega arith) h.0)
CausalFrom-get_elem? n (suc i) (c ∷ queue) b h e =
    AllBelow-weaken (suc n + i) (n + suc i) b.deps (omega arith)
      (CausalFrom-get_elem? (suc n) i queue b h.1 e)

-- The receipts that numbers stand for.
abbrev pub resolve : List PromiseBatch → List ℕ → List (Option PromiseBatch)
resolve dag [] = []
resolve dag (d ∷ ds) = get_elem? dag d ∷ resolve dag ds

resolve-append_left :
    (xs ys : List PromiseBatch) (ds : List ℕ)
    → AllBelow (length xs) ds
    → resolve (xs ++ ys) ds ≡ resolve xs ds
resolve-append_left xs ys [] h = refl
resolve-append_left xs ys (d ∷ ds) h =
    ap₂ ◌∷◌ (get_elem?-append_left xs ys d h.0) (resolve-append_left xs ys ds h.1)

-- The two transactions are requeued into one DAG, in which the receipt `i` of the second one, `b`,
-- stands behind those of the first one, and all of its dependencies are receipts of the first one.
abbrev pub Aliased : (first second : List PromiseBatch) → ℕ → PromiseBatch → Type 0
Aliased first second i b =
    (dag : List PromiseBatch) × (requeue (first ++ second) [] [] ≡ some dag)
    × (get_elem? dag (length first + i) ≡ some b)
    × (resolve dag b.deps ≡ resolve first b.deps)

-- Where each receipt of two deferred transactions depends on earlier ones of its own transaction, a
-- receipt of the second one, whose place in it is at most the number of receipts of the first one, has in
-- the joint DAG the receipts of the first transaction with the same numbers as its dependencies.
pub requeue-aliases :
    (first second : List PromiseBatch)
    → CausalFrom 0 first
    → CausalFrom 0 second
    → (i : ℕ) (b : PromiseBatch) → get_elem? second i ≡ some b
    → i ≤ length first
    → Aliased first second i b
requeue-aliases first second h1 h2 i b e le = (
  first ++ second,
  requeue-identity (first ++ second) (CausalFrom-append first second 0 h1 h2),
  get_elem?-append_right first second i ∙ e,
  resolve-append_left first second b.deps (
      AllBelow-weaken (0 + i) (length first) b.deps (omega arith)
        (CausalFrom-get_elem? 0 i second b h2 e)),
)

all_executed-below :
    (n : ℕ) (ds executed : List ℕ)
    → AllBelow n ds
    → ((j : ℕ) → j < n → mem j executed ≡ true)
    → all_executed ds executed ≡ true
all_executed-below n [] executed h before = refl
all_executed-below n (d ∷ ds) executed h before =
    ground (arith, before d h.0, all_executed-below n ds executed h.1 before)

pub next_ready-eq-none :
    (batches : List PromiseBatch) (i : ℕ) (executed : List ℕ)
    → CausalFrom i batches
    → ((j : ℕ) → j < i → mem j executed ≡ true)
    → next_ready i batches executed ≡ none
    → (j : ℕ) → j < i + length batches
    → mem j executed ≡ true
unfolding next_ready
next_ready-eq-none [] i executed c before e j h = before j (omega (arith, h))
next_ready-eq-none (b ∷ r) i executed c before e j h = elim (Bool-cases (mem i executed)) [
  | inl done ↦
      next_ready-eq-none r (suc i) executed c.1 (up_to done) (later done) j (omega (arith, h))
  | inr todo ↦ absurd (ground (arith, e, todo, all_executed-below i b.deps executed c.0 before))
]
  where
    plus_one : i + 1 ≡ suc i
    plus_one = omega arith

    later : mem i executed ≡ true → next_ready (suc i) r executed ≡ none
    later done = subst (λ n. next_ready n r executed ≡ none) plus_one (ground (arith, e, done))

    up_to : mem i executed ≡ true → (k : ℕ) → k < suc i → mem k executed ≡ true
    up_to done k lt = elim (Bool-cases (nat_eq k i)) [
      | inl same ↦ subst (λ n. mem n executed ≡ true) (sym ((nat_eq_iff k i).0 same)) done
      | inr other ↦ before k (ground (arith, lt, other))
    ]

-- What the engine remembers has a causal DAG.
abbrev pub HasCausal : Memo → Type 0
HasCausal m = CausalFrom 0 m.2

-- In the world of a report, all receipts of the DAG are executed.
abbrev pub AllDelivered : Res SettleReport → Type 0
AllDelivered (ok report w) = (j : ℕ) → j < length w.dag → mem j w.executed ≡ true
AllDelivered (error w) = ⊥
AllDelivered (stop s) = Unit

-- When delivery ends, every receipt was executed, where each depends on earlier ones only and
-- contracts keep it so when they push receipts: a failing receipt does not hold up the others, and
-- none is left waiting.
pub deliver-AllDelivered :
    (modules : Modules)
    → Stable modules HasCausal
    → (depth rounds : ℕ) (report : SettleReport) (w : World) → CausalFrom 0 w.dag
    → AllDelivered (deliver modules depth rounds report w)
unfolding deliver
deliver-AllDelivered modules stable depth zero report w c = tt
deliver-AllDelivered modules stable depth (suc rounds) report w c =
    elim (Option-cases (next_ready 0 w.dag w.executed)) [
      | inl e ↦
          rw (e, deliver)
            (λ j h.
              next_ready-eq-none w.dag 0 w.executed c (λ k lt. absurd (omega arith)) e j
                (omega (arith, h)))
      | inr (idx, e) ↦
          rw (e, deliver)
            (go (execute_promise modules depth idx w)
              (execute_promise-Kept modules HasCausal stable (λ i m p. p)
                (λ i out m m' p none p'. p') depth idx w c)
              (deliver-AllDelivered modules stable depth rounds))
    ]
  where
    go :
        (r : Res Results)
        → Kept HasCausal r
        → ((n : SettleReport) (v : World)
            → CausalFrom 0 v.dag
            → AllDelivered (deliver modules depth rounds n v))
        → AllDelivered (elim r [
          | ok results w' ↦ deliver modules depth rounds (one_more results report) w'
          | error w' ↦ deliver modules depth rounds (one_more (none ∷ []) report) w'
          | stop s ↦ stop s
        ])
    go (ok x w') k h = h _ w' k
    go (error w') k h = h _ w' k
    go (stop s) k h = tt
