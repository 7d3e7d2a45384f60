-- ===== src/Promise/Execute/Calls.antt =====
-- promises.rs: calls of contracts that push batches and return no promise.
use near_mock.Base.{
  ℕ, ◌<◌, ◌≡◌, false, refl, sym, ap, subst, ◌∙◌, List, [], ◌∷◌, Option, none, some, Bytes,
  get_elem?, ltb, Bool-cases, inl, inr, Option-cases,
}
use near_mock.Base.{bytes_Key, ℕ_eq}
use near_mock.Promise.{PromiseBatch, World, Res, ok, error, stop}
use near_mock.Promise.Call.{
  Ran, link_error, no_method, returned, trapped, crashed, Modules, panic_trap, enter, move_deposit,
  undo, leave, prepare, conclude, sub_execute,
}
use near_mock.Promise.Call.Laws.{after, has_crashed}

-- Batches stay in their places with their dependencies, and may get further actions; new ones are
-- added at the end.
abbrev pub Extends : List PromiseBatch → List PromiseBatch → Type 0
Extends old new =
    (j : ℕ) (b : PromiseBatch)
    → get_elem? old j ≡ some b
    → (c : PromiseBatch) × (get_elem? new j ≡ some c) × (c.deps ≡ b.deps)

pub Extends-trans : (a b c : List PromiseBatch) → Extends a b → Extends b c → Extends a c
Extends-trans a b c f g j x e =
    let (y, e1, d1) = f j x e in let (z, e2, d2) = g j y e1 in (z, e2, d2 ∙ d1)

-- Contracts push batches and add actions to batches; they return no promise and crash nothing.
abbrev pub IsQuiet : Modules → Type 0
IsQuiet modules =
    (account : Bytes) (code : Bytes → World → Ran) (method : Bytes) (w : World)
    → modules account ≡ some code
    → Extends w.dag (after (code method w)).dag
      × (w.pending_return ≡ none → (after (code method w)).pending_return ≡ none)
      × (has_crashed (code method w) ≡ false)

abbrev pub AllBelow : ℕ → List ℕ → Type 0
AllBelow n [] = Unit
AllBelow n (d ∷ ds) = (d < n) × AllBelow n ds

-- Each batch depends on earlier ones only.
abbrev pub IsCausal : List PromiseBatch → Type 0
IsCausal dag = (j : ℕ) (b : PromiseBatch) → get_elem? dag j ≡ some b → AllBelow j b.deps

-- A result or an error, not a panic and not a lack of fuel, in a world where `dag` is still there.
abbrev pub Ends {ℓ} : {A : Type ℓ} → List PromiseBatch → Res A → Type 0
Ends dag (ok a w) = Extends dag w.dag
Ends dag (error w) = Extends dag w.dag
Ends dag (stop s) = ⊥

-- The same for a call, which leaves no returned promise where there was none.
abbrev pub EndsCall : List PromiseBatch → Option ℕ → Res (Option Bytes) → Type 0
EndsCall dag o (ok a w) = Extends dag w.dag × (o ≡ none → w.pending_return ≡ none)
EndsCall dag o (error w) = Extends dag w.dag × (o ≡ none → w.pending_return ≡ none)
EndsCall dag o (stop s) = ⊥

abbrev engine : World → List PromiseBatch × Option ℕ
engine w = (w.dag, w.pending_return)

prepare-engine :
    (account args predecessor : Bytes) (deposit : ℕ) (w : World)
    → engine (prepare account args predecessor deposit w) ≡ engine w
unfolding prepare move_deposit enter
prepare-engine account args predecessor deposit w = elim (Bool-cases (ltb 0 deposit)) [
  | inl e ↦ rw (e, move_deposit) refl
  | inr e ↦ rw (e, move_deposit) refl
]

undo-engine :
    (account predecessor : Bytes) (deposit : ℕ) (snap : _) (w : World)
    → engine (undo account predecessor deposit snap w) ≡ engine w
unfolding undo
undo-engine account predecessor deposit snap w = elim (Bool-cases (ltb 0 deposit)) [
  | inl e ↦ rw (e, undo) refl
  | inr e ↦ rw (e, undo) refl
]

panic_trap-engine : (line : Option Bytes) (w : World) → engine (panic_trap line w) ≡ engine w
panic_trap-engine none w = refl
panic_trap-engine (some line) w = refl

abbrev Calm : List PromiseBatch → Option ℕ → List PromiseBatch × Option ℕ → Type 0
Calm dag o e = Extends dag e.0 × (o ≡ none → e.1 ≡ none)

conclude-Ends :
    (dag : List PromiseBatch) (o : Option ℕ) (account predecessor : Bytes) (deposit : ℕ)
    (w start : World) (ran : Ran)
    → Calm dag o (engine (after ran))
    → has_crashed ran ≡ false
    → EndsCall dag o (conclude account predecessor deposit w start ran)
unfolding conclude leave
conclude-Ends dag o account predecessor deposit w start (link_error w') h c = h
conclude-Ends dag o account predecessor deposit w start (returned w') h c = h
conclude-Ends dag o account predecessor deposit w start (crashed w') h c = cc
conclude-Ends dag o account predecessor deposit w start (no_method w') h c =
    subst (Calm dag o) (sym (undo-engine account predecessor deposit _ w')) h
conclude-Ends dag o account predecessor deposit w start (trapped w' line) h c =
    subst (Calm dag o)
      (sym (
        undo-engine account predecessor deposit _ (panic_trap line w') ∙ panic_trap-engine line w'))
      h

module _ (modules : Modules) (quiet : IsQuiet modules) (dag : List PromiseBatch) where
  pub sub_execute-Ends :
      (account method args predecessor : Bytes) (deposit : ℕ) (w : World)
      → Extends dag w.dag
      → EndsCall dag w.pending_return
          (sub_execute modules account method args predecessor deposit w)
  unfolding sub_execute
  sub_execute-Ends account method args predecessor deposit w h =
      elim (Option-cases (modules account)) [
        | inl e ↦ rw (e, sub_execute) (h, (λ p. p))
        | inr (code, e) ↦
            let start = prepare account args predecessor deposit w in
            let same = prepare-engine account args predecessor deposit w in
            let (grown, none_returned, safe) = quiet account code method start e in
            rw (e, sub_execute)
              (conclude-Ends dag w.pending_return account predecessor deposit w start
                (code method start)
                (
                  Extends-trans dag start.dag _ (subst (Extends dag) (sym (ap (λ x. x.0) same)) h)
                      grown,
                  (λ p. none_returned (ap (λ x. x.1) same ∙ p)),
                )
                safe)
      ]
