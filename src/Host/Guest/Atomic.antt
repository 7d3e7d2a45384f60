-- ===== src/Host/Guest/Atomic.antt =====
-- A contract that is such a tree, run by `sub_execute`: what it leaves when it traps.
use near_mock.Base.{
  ℕ, ◌≡◌, ◌≢◌, refl, ap, ◌∙◌, subst, true, false, [], ◌∷◌, ◌++◌, Option, none, some, Bytes, arith,
  length, ltb, starts_with, Bool-cases, inl, inr,
}
use near_mock.Base.{bytes_Key, nat_eq_iff}
use near_mock.Base.Map.{Map, lookup, IsUnique}
use near_mock.Gas.Staking.{RunCfg}
use near_mock.State.{in_partition, prefixed_key}
use near_mock.Promise.{World, contract_of, Res}
use near_mock.Promise.Call.{Ran, Modules, prepare, enter, move_deposit, sub_execute}
use near_mock.Promise.Call.Undo.{prepare-free}
use near_mock.Promise.Call.Laws.{has_crashed, after}
use near_mock.Promise.Call.Traps.{failed, FailedWith, sub_execute-reverts}
use near_mock.Tx.Drain.Rounds.{IsInert}
use near_mock.Host.{HostError}
use near_mock.Host.Program.Contracts.{
  Code, start_of, execute_code, modules_of, modules_of-each, execute_code-Leaves, execute_code-safe,
}
use near_mock.Host.Guest.{HostCall, host_call, host_call-Confined, run}
use near_mock.Host.Guest.Tame.{Tame, run-fine}
use near_mock.Host.Storage.Confined.{belongs, SameOutside, frame}

abbrev pub input_of : World → Bytes
input_of w = elim w.exec_ctx [ none ↦ [] | some ctx ↦ ctx.input ]

-- No text of an error is a guest's line here: these contracts do not call `panic_utf8`.
abbrev pub no_line : HostError → Option Bytes
no_line e = none

abbrev pub execute : RunCfg → Option (Code HostCall) → World → Ran
execute cfg c w = execute_code no_line (λ v. host_call cfg (input_of v)) c w

-- The code of all accounts.
abbrev pub guest_modules : RunCfg → (Bytes → Option (Bytes → Option (Code HostCall))) → Modules
guest_modules cfg codes = modules_of no_line (λ v. host_call cfg (input_of v)) codes

-- From the world a guest starts in to the one it leaves.
abbrev pub Leaves : World → World → Type 0
Leaves w w' = SameOutside (contract_of w.exec_ctx) w.st.storage w'.st.storage × (frame w' ≡ frame w)

Leaves-trans : (a b c : World) → Leaves a b → Leaves b c → Leaves a c
Leaves-trans a b c h k =
    let later =
      subst (λ acct. SameOutside acct b.st.storage c.st.storage) (ap (λ f. contract_of f.0) h.1)
        k.0 in
    ((λ key out. later key out ∙ h.0 key out), k.1 ∙ h.1)

execute-Leaves :
    (cfg : RunCfg) (c : Option (Code HostCall)) (w : World) → Leaves w (after (execute cfg c w))
execute-Leaves cfg c w =
    execute_code-Leaves no_line (λ v. host_call cfg (input_of v)) Leaves
      (λ w. ((λ k out. refl), refl)) Leaves-trans
      (λ v c vm. host_call-Confined cfg (input_of v) c vm) c w

prepare-contract :
    (account args predecessor : Bytes) (deposit : ℕ) (w : World)
    → contract_of (prepare account args predecessor deposit w).exec_ctx ≡ account
unfolding prepare move_deposit enter
prepare-contract account args predecessor deposit w = elim (Bool-cases (ltb 0 deposit)) [
  | inl e ↦ rw (e, move_deposit) refl
  | inr e ↦ rw (e, move_deposit) refl
]

starts_with-full :
    (k p : Bytes) → starts_with k p ≡ true → ltb (length p) (length k) ≡ false → k ≡ p
starts_with-full [] [] h l = refl
starts_with-full [] (b ∷ p) h l = cc
starts_with-full (a ∷ k) [] h l = absurd (ground arith)
starts_with-full (a ∷ k) (b ∷ p) h l =
    let first : a ≡ b = ground (arith, h, nat_eq_iff a b) in
    let tail : k ≡ p = starts_with-full k p (ground (arith, h)) (ground (arith, l)) in cc

-- An entry that belongs to an account without being in its partition is the one under the empty key.
belongs-empty_key :
    (account k : Bytes)
    → belongs account k ≡ true
    → in_partition account k ≡ false
    → k ≡ prefixed_key account []
unfolding in_partition prefixed_key
belongs-empty_key account k b p = starts_with-full k (account ++ 1 ∷ []) b (ground (arith, b, p))

FailedWith-map :
    (P Q : Map Bytes Bytes → Type 0) (r : Res (Option Bytes))
    → ((m : Map Bytes Bytes) → P m → Q m)
    → FailedWith P r
    → FailedWith Q r
FailedWith-map P Q (Res.ok v w) f h = (h.0, f w.st.storage h.1)
FailedWith-map P Q (Res.error w) f h = absurd h
FailedWith-map P Q (Res.stop s) f h = absurd h

module _ (cfg : RunCfg) (codes : Bytes → Option (Bytes → Option (Code HostCall))) (account : Bytes)
    (by_method : Bytes → Option (Code HostCall)) (known : codes account ≡ some by_method) where
  known_modules :
      guest_modules cfg codes account ≡ some (λ method w. execute cfg (by_method method) w)
  known_modules = rw (known, guest_modules, modules_of) refl

  -- What the code leaves, in terms of the world of the call.
  execute-SameOutside :
      (method args predecessor : Bytes) (w : World)
      → SameOutside account w.st.storage
          (after (execute cfg (by_method method) (prepare account args predecessor 0 w))).st.storage
  execute-SameOutside method args predecessor w k out =
      let start = prepare account args predecessor 0 w in
      (execute-Leaves cfg (by_method method) start).0 k
        (ap (λ acct. belongs acct k) (prepare-contract account args predecessor 0 w) ∙ out)
      ∙ ap (lookup k) (prepare-free account args predecessor w)

  -- A receipt without a deposit that calls a contract and fails, whatever storage and register
  -- functions the contract called before it trapped, gives a failed result and leaves every entry of
  -- every account as it was, but for the one under the empty key of the contract.
  pub sub_execute-leaves_all :
      (method args predecessor : Bytes) (w : World)
      → IsUnique w.st.storage
      → failed (execute cfg (by_method method) (prepare account args predecessor 0 w)) ≡ true
      → FailedWith
          (λ m. (k : Bytes) → k ≢ prefixed_key account [] → lookup k m ≡ lookup k w.st.storage)
          (sub_execute (guest_modules cfg codes) account method args predecessor 0 w)
  sub_execute-leaves_all method args predecessor w u f =
      FailedWith-map _ _ _
        (λ m h k other. h k ∙ elim (Bool-cases (in_partition account k)) [
          | inl e ↦ rw (e) refl
          | inr e ↦ rw (e) (
              execute-SameOutside method args predecessor w k
                (ground (arith, belongs-empty_key account k, e, other)))
        ])
        (sub_execute-reverts (guest_modules cfg codes) account method args predecessor w _
          known_modules u f)

-- Methods that are tame in every world.
abbrev pub AllTame : RunCfg → (Bytes → Option (Bytes → Option (Code HostCall))) → Type 0
AllTame cfg codes =
    (account method : Bytes) (by_method : Bytes → Option (Code HostCall)) (c : Code HostCall)
    (w : World)
    → codes account ≡ some by_method
    → by_method method ≡ some c
    → Tame cfg (input_of w) c.program (start_of c w)

-- Such contracts schedule nothing.
pub guest_modules-IsInert :
    (cfg : RunCfg) (codes : Bytes → Option (Bytes → Option (Code HostCall)))
    → AllTame cfg codes
    → IsInert (guest_modules cfg codes)
unfolding run
guest_modules-IsInert cfg codes tame account code method w e =
    modules_of-each no_line (λ v. host_call cfg (input_of v)) codes
      (λ w r.
        ((after r).outcomes ≡ w.outcomes)
        × ((after r).executed ≡ w.executed)
        × ((after r).dag ≡ w.dag)
        × (w.pending_return ≡ none → (after r).pending_return ≡ none)
        × (has_crashed r ≡ false))
      (λ account by_method method w k.
        let kept : frame (after (execute cfg (by_method method) w)) ≡ frame w =
          (execute-Leaves cfg (by_method method) w).1 in
        (
          ap (λ f. f.1) kept,
          ap (λ f. f.2) kept,
          ap (λ f. f.3) kept,
          (λ p. ap (λ f. f.4) kept ∙ p),
          execute_code-safe no_line (λ v. host_call cfg (input_of v)) (by_method method) w
              (λ c e.
                run-fine cfg (input_of w) c.program (start_of c w)
                  (tame account method by_method c w k e)),
        ))
      account code method w e
