-- ===== src/Promise/Call/Laws.antt =====
-- promises.rs, `sub_execute`: what a call leaves alone, and what a trapped one leaves behind.
use near_mock.Base.{
  ℕ, ◌≡◌, Bool, true, false, refl, sym, subst, ◌∙◌, List, Option, none, some, Bytes, ltb,
  Bool-cases, inl, inr, Option-cases,
}
use near_mock.Base.{bytes_Key}
use near_mock.Base.Map.{Map}
use near_mock.Promise.{PromiseBatch, World, Results, Res, ok, error, stop}
use near_mock.Promise.Call.{
  Ran, link_error, no_method, returned, trapped, crashed, Modules, panic_trap, enter, move_deposit,
  undo, leave, prepare, conclude, sub_execute,
}

-- The world that a contract's code leaves.
abbrev pub after : Ran → World
after (link_error w) = w
after (no_method w) = w
after (returned w) = w
after (trapped w line) = w
after (crashed w) = w

abbrev pub has_crashed : Ran → Bool
has_crashed (link_error w) = false
has_crashed (no_method w) = false
has_crashed (returned w) = false
has_crashed (trapped w line) = false
has_crashed (crashed w) = true

-- What the engine remembers of the receipts of a transaction.
abbrev pub Memo : Type 0
Memo = Map ℕ Results × List ℕ × List PromiseBatch

abbrev pub memo : World → Memo
memo w = (w.outcomes, w.executed, w.dag)

-- What contracts keep true.
abbrev pub Stable : Modules → (Memo → Type 0) → Type 0
Stable modules P =
    (account : Bytes) (code : Bytes → World → Ran) (method : Bytes) (w : World)
    → modules account ≡ some code
    → P (memo w)
    → P (memo (after (code method w)))

-- Contracts have no access to the results and marks of receipts.
abbrev pub KeepsMemo : Modules → Type 0
KeepsMemo modules =
    (account : Bytes) (code : Bytes → World → Ran) (method : Bytes) (w : World)
    → modules account ≡ some code
    → ((after (code method w)).outcomes ≡ w.outcomes)
      × ((after (code method w)).executed ≡ w.executed)

-- A property of that memory in the world of a result, failing ones included.
abbrev pub Kept {ℓ} : {A : Type ℓ} → (Memo → Type 0) → Res A → Type 0
Kept P (ok a w) = P (memo w)
Kept P (error w) = P (memo w)
Kept P (stop s) = Unit

prepare-memo :
    (account args predecessor : Bytes) (deposit : ℕ) (w : World)
    → memo (prepare account args predecessor deposit w) ≡ memo w
unfolding prepare move_deposit enter
prepare-memo account args predecessor deposit w = elim (Bool-cases (ltb 0 deposit)) [
  | inl e ↦ rw (e, move_deposit) refl
  | inr e ↦ rw (e, move_deposit) refl
]

undo-memo :
    (account predecessor : Bytes) (deposit : ℕ) (snap : _) (w : World)
    → memo (undo account predecessor deposit snap w) ≡ memo w
unfolding undo
undo-memo account predecessor deposit snap w = elim (Bool-cases (ltb 0 deposit)) [
  | inl e ↦ rw (e, undo) refl
  | inr e ↦ rw (e, undo) refl
]

panic_trap-memo : (line : Option Bytes) (w : World) → memo (panic_trap line w) ≡ memo w
panic_trap-memo none w = refl
panic_trap-memo (some line) w = refl

conclude-Kept :
    (P : Memo → Type 0) (account predecessor : Bytes) (deposit : ℕ) (w start : World) (ran : Ran)
    → P (memo (after ran))
    → Kept P (conclude account predecessor deposit w start ran)
unfolding conclude leave
conclude-Kept P account predecessor deposit w start (link_error w') h = h
conclude-Kept P account predecessor deposit w start (returned w') h = h
conclude-Kept P account predecessor deposit w start (crashed w') h = tt
conclude-Kept P account predecessor deposit w start (no_method w') h =
    subst P (sym (undo-memo account predecessor deposit _ w')) h
conclude-Kept P account predecessor deposit w start (trapped w' line) h =
    subst P
      (sym (undo-memo account predecessor deposit _ (panic_trap line w') ∙ panic_trap-memo line w'))
      h

-- A call keeps what holds of the engine's memory.
pub sub_execute-Kept :
    (modules : Modules) (P : Memo → Type 0)
    → Stable modules P
    → (account method args predecessor : Bytes) (deposit : ℕ) (w : World) → P (memo w)
    → Kept P (sub_execute modules account method args predecessor deposit w)
unfolding sub_execute
sub_execute-Kept modules P stable account method args predecessor deposit w h =
    elim (Option-cases (modules account)) [
      | inl e ↦ rw (e, sub_execute) h
      | inr (code, e) ↦
          let start = prepare account args predecessor deposit w in
          rw (e, sub_execute)
            (conclude-Kept P account predecessor deposit w start (code method start) (
              stable account code method start e
                (subst P (sym (prepare-memo account args predecessor deposit w)) h)))
    ]
