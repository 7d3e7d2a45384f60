-- ===== src/Promise/Call/Traps.antt =====
-- promises.rs, `sub_execute`: the state after a failed call.
use near_mock.Promise.Call.Undo.{
  undo-lookup_free, undo-own, undo-refund, prepare-IsUnique, prepare-credit, prepare-free,
  in_partition_other,
}
use near_mock.Base.{
  ℕ, ◌<◌, ◌≡◌, ◌≢◌, refl, ap, ◌∙◌, Bool, true, false, Option, none, some, Bytes, if◌then◌else◌,
}
use near_mock.Base.{bytes_Key}
use near_mock.Base.Map.{Map, lookup, IsUnique}
use near_mock.State.{in_partition, snapshot_partition}
use near_mock.State.Partition.{IsAccount}
use near_mock.State.Balance.{read_amount, bal_key, add_u128, read_amount_ext}
use near_mock.Promise.{World, Res, ok, error, stop}
use near_mock.Promise.Call.Laws.{after}
use near_mock.Promise.Call.{
  Ran, link_error, no_method, returned, trapped, crashed, Modules, panic_trap, undo, leave, prepare,
  conclude, sub_execute,
}

panic_trap-st : (line : Option Bytes) (w : World) → (panic_trap line w).st ≡ w.st
panic_trap-st none w = refl
panic_trap-st (some line) w = refl

abbrev pub failed : Ran → Bool
failed (link_error w) = false
failed (no_method w) = true
failed (returned w) = false
failed (trapped w line) = true
failed (crashed w) = false

-- The result of a failed call: failed, with a storage for which `P` holds.
abbrev pub FailedWith : (Map Bytes Bytes → Type 0) → Res (Option Bytes) → Type 0
FailedWith P (ok r w) = (r ≡ none) × P w.st.storage
FailedWith P (error w) = ⊥
FailedWith P (stop s) = ⊥

conclude-FailedWith :
    (P : Map Bytes Bytes → Type 0) (account predecessor : Bytes) (deposit : ℕ) (w start : World)
    (ran : Ran)
    → failed ran ≡ true
    → ((w' : World)
        → w'.st ≡ (after ran).st
        → P (undo account predecessor deposit (snapshot_partition start.st account) w').st.storage)
    → FailedWith P (conclude account predecessor deposit w start ran)
unfolding conclude leave
conclude-FailedWith P account predecessor deposit w start (link_error w') f h = cc
conclude-FailedWith P account predecessor deposit w start (returned w') f h = cc
conclude-FailedWith P account predecessor deposit w start (crashed w') f h = cc
conclude-FailedWith P account predecessor deposit w start (no_method w') f h = (refl, h w' refl)
conclude-FailedWith P account predecessor deposit w start (trapped w' line) f h =
    (refl, h (panic_trap line w') (panic_trap-st line w'))

module _ (modules : Modules) (account method args predecessor : Bytes) (w : World)
    (code : Bytes → World → Ran) (known : modules account ≡ some code) where
  sub_execute-FailedWith :
      (P : Map Bytes Bytes → Type 0) (deposit : ℕ)
      → let start = prepare account args predecessor deposit w in
        failed (code method start) ≡ true
        → ((w' : World)
            → w'.st ≡ (after (code method start)).st
            → P
                (undo account predecessor deposit
                  (snapshot_partition start.st account)
                  w').st.storage)
        → FailedWith P (sub_execute modules account method args predecessor deposit w)
  unfolding sub_execute
  sub_execute-FailedWith P deposit f h =
      let start = prepare account args predecessor deposit w in
      rw (known, sub_execute)
        (conclude-FailedWith P account predecessor deposit w start (code method start) f h)

  -- A call without a deposit that traps, or whose method does not exist, gives a failed result, and
  -- brings every entry of the callee's partition back to what it was before the call; the entries of
  -- other accounts stay as the callee left them.
  pub sub_execute-reverts :
      IsUnique w.st.storage
      → let left = code method (prepare account args predecessor 0 w) in
        failed left ≡ true
        → FailedWith
            (λ m.
              (k : Bytes)
              → lookup k m ≡ (
                  if in_partition account k
                  then lookup k w.st.storage
                  else lookup k (after left).st.storage))
            (sub_execute modules account method args predecessor 0 w)
  sub_execute-reverts u f = sub_execute-FailedWith _ 0 f (λ w' e k.
      undo-lookup_free account predecessor k (prepare account args predecessor 0 w) w'
        (prepare-IsUnique account args predecessor 0 w u)
      ∙ ap (λ m. if in_partition account k then lookup k m else lookup k w'.st.storage)
          (prepare-free account args predecessor w)
      ∙ ap (λ st. if in_partition account k then lookup k w.st.storage else lookup k st.storage) e)

  -- When a call with a deposit fails, the sender gets the deposit back and the callee keeps it too:
  -- the snapshot its partition is restored from was taken after the credit.
  pub sub_execute-keeps_deposit :
      (deposit : ℕ)
      → IsUnique w.st.storage
      → IsAccount account
      → IsAccount predecessor
      → predecessor ≢ account
      → 0 < deposit
      → let left = code method (prepare account args predecessor deposit w) in
        failed left ≡ true
        → FailedWith
            (λ m.
              (read_amount m (bal_key account)
                ≡ add_u128 (read_amount w.st.storage (bal_key account)) deposit)
              × (read_amount m (bal_key predecessor)
                  ≡ add_u128 (read_amount (after left).st.storage (bal_key predecessor)) deposit))
            (sub_execute modules account method args predecessor deposit w)
  sub_execute-keeps_deposit deposit u ha hp differ d f =
      let start = prepare account args predecessor deposit w in
      let unique = prepare-IsUnique account args predecessor deposit w u in
      sub_execute-FailedWith _ deposit f (λ w' e. (
        read_amount_ext _ start.st.storage _ _
              (undo-own account predecessor deposit start w' unique ha hp differ)
            ∙ prepare-credit account args predecessor deposit w differ d,
        undo-refund account predecessor deposit start w' unique
              (in_partition_other predecessor account hp ha differ) d
            ∙ ap (λ st. add_u128 (read_amount st.storage (bal_key predecessor)) deposit) e,
      ))
