-- ===== src/Tx/Drain/Count.antt =====
-- The number of receipts that are left, which each execution lowers.
use near_mock.Base.{
  ℕ, zero, suc, ◌+◌, ◌≤◌, ◌<◌, ◌≡◌, inl, inr, true, false, List, [], ◌∷◌, some, arith, length,
  if◌then◌else◌, nat_eq, nat_eq_iff, Bool-cases,
}
use near_mock.Promise.{PromiseBatch}
use near_mock.Promise.Execute.{mem}
use near_mock.Tx.Drain.{next_unexecuted}

-- How many of the `n` indices from `i` on are not executed.
abbrev pub left : ℕ → ℕ → List ℕ → ℕ
left i zero executed = 0
left i (suc n) executed =
    let rest = left (suc i) n executed in if mem i executed then rest else suc rest

pub left-le : (n i : ℕ) (executed : List ℕ) → left i n executed ≤ n
left-le zero i executed = omega arith
left-le (suc n) i executed = ground (arith, left-le n (suc i) executed)

-- Nothing that was executed is forgotten.
abbrev pub Grows : List ℕ → List ℕ → Type 0
Grows old new = (j : ℕ) → mem j old ≡ true → mem j new ≡ true

left_mono : (n i : ℕ) (old new : List ℕ) → Grows old new → left i n new ≤ left i n old
left_mono zero i old new h = omega arith
left_mono (suc n) i old new h = ground (arith, h i, left_mono n (suc i) old new h)

pub left-lt :
    (n i idx : ℕ) (old new : List ℕ)
    → Grows old new
    → i ≤ idx
    → idx < i + n
    → mem idx old ≡ false
    → mem idx new ≡ true
    → left i n new < left i n old
left-lt zero i idx old new h lo hi before now = absurd (omega (arith, lo, hi))
left-lt (suc n) i idx old new h lo hi before now = elim (Bool-cases (nat_eq i idx)) [
  | inl same ↦ ground (arith, here same, h i, left_mono n (suc i) old new h, before, now)
  | inr other ↦ ground (
    arith,
    other,
    h i,
    left-lt n (suc i) idx old new h (later other) (omega (arith, hi)) before now,
  )
]
  where
    here : nat_eq i idx ≡ true → (mem i old ≡ false) × (mem i new ≡ true)
    here same =
        let e = (nat_eq_iff i idx).0 same in (ground (arith, e, before), ground (arith, e, now))

    later : nat_eq i idx ≡ false → suc i ≤ idx
    later other = ground (arith, other, lo)

-- The receipt that the loop picks is one of the DAG, and not executed.
pub next_unexecuted-eq-some :
    (batches : List PromiseBatch) (i idx : ℕ) (executed : List ℕ)
    → next_unexecuted i batches executed ≡ some idx
    → (idx < i + length batches) × (mem idx executed ≡ false)
unfolding next_unexecuted
next_unexecuted-eq-some [] i idx executed e = cc
next_unexecuted-eq-some (b ∷ r) i idx executed e =
    ground (arith, e, next_unexecuted-eq-some r (i + 1) idx executed)
