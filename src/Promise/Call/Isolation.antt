-- ===== src/Promise/Call/Isolation.antt =====
-- promises.rs, `sub_execute`: the caller's context around a call.
use near_mock.Base.{ℕ, ◌≡◌, refl, Bytes, inl, inr, Option-cases}
use near_mock.Base.{bytes_Key}
use near_mock.Promise.{World, Res, ok, error, stop}
use near_mock.Promise.Call.{
  Ran, link_error, no_method, returned, trapped, crashed, Modules, leave, prepare, conclude,
  sub_execute,
}

-- The caller's context is back: registers, return value, execution context and deposit.
abbrev pub Isolated {ℓ} : {A : Type ℓ} → World → Res A → Type 0
Isolated w (ok r w') =
    (w'.st.registers ≡ w.st.registers)
    × (w'.st.return_data ≡ w.st.return_data)
    × (w'.exec_ctx ≡ w.exec_ctx)
    × (w'.current_deposit ≡ w.current_deposit)
Isolated w (error w') = Unit
Isolated w (stop s) = Unit

conclude-Isolated :
    (account predecessor : Bytes) (deposit : ℕ) (w start : World) (ran : Ran)
    → Isolated w (conclude account predecessor deposit w start ran)
unfolding conclude leave
conclude-Isolated account predecessor deposit w start (link_error w') = tt
conclude-Isolated account predecessor deposit w start (crashed w') = tt
conclude-Isolated account predecessor deposit w start (no_method w') = (refl, refl, refl, refl)
conclude-Isolated account predecessor deposit w start (returned w') = (refl, refl, refl, refl)
conclude-Isolated account predecessor deposit w start (trapped w' l) = (refl, refl, refl, refl)

-- Whatever the called contract does, and whether it returns, traps or does not exist, a call that
-- gives a result leaves the caller's registers, return value, context and deposit as they were.
pub sub_execute-Isolated :
    (modules : Modules) (account method args predecessor : Bytes) (deposit : ℕ) (w : World)
    → Isolated w (sub_execute modules account method args predecessor deposit w)
unfolding sub_execute
sub_execute-Isolated modules account method args predecessor deposit w =
    elim (Option-cases (modules account)) [
      | inl e ↦ rw (e, sub_execute) (refl, refl, refl, refl)
      | inr (code, e) ↦
          let start = prepare account args predecessor deposit w in
          rw (e, sub_execute)
            (conclude-Isolated account predecessor deposit w start (code method start))
    ]
