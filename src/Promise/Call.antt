-- ===== src/Promise/Call.antt =====
-- promises.rs, `sub_execute`: one function call of a receipt on a contract.
pub mod Laws
pub mod Undo
pub mod Isolation
pub mod Traps
use near_mock.Base.{
  ℕ, ◌+◌, ◌-◌, Bool, true, false, List, [], ◌∷◌, ◌++◌, Option, none, some, Bytes, if◌then◌else◌,
  ltb,
}
use near_mock.Base.{bytes_Key}
use near_mock.State.{snapshot_partition, restore_partition, Snapshot}
use near_mock.State.Balance.{read_amount, write_amount, bal_key, add_u128}
use near_mock.Promise.{World, ExecCtx, with_storage, Res, ok, error, stop, Stop}

-- How the code of a contract ends. A trap has the line of the guest's panic, where its text has one;
-- a crash is a panic of the Rust code that serves the contract.
pub data Ran : Type 0 where
  link_error : World → Ran
  no_method : World → Ran
  returned : World → Ran
  trapped : World → Option Bytes → Ran
  crashed : World → Ran

-- `MODULES`, and the fork's pages behind it: the code of an account, by method. Running it is up to
-- the WebAssembly engine and the contract.
abbrev pub Modules : Type 0
Modules = Bytes → Option (Bytes → World → Ran)

-- "AccountDoesNotExist: "
abbrev does_not_exist : Bytes
does_not_exist =
    65 ∷ 99 ∷ 99 ∷ 111 ∷ 117 ∷ 110 ∷ 116 ∷ 68 ∷ 111 ∷ 101 ∷ 115 ∷ 78 ∷ 111 ∷ 116 ∷ 69 ∷ 120 ∷ 105
    ∷ 115 ∷ 116 ∷ 58 ∷ 32 ∷ []

-- "Smart contract panicked: "
abbrev panicked_with : Bytes
panicked_with =
    83 ∷ 109 ∷ 97 ∷ 114 ∷ 116 ∷ 32 ∷ 99 ∷ 111 ∷ 110 ∷ 116 ∷ 114 ∷ 97 ∷ 99 ∷ 116 ∷ 32 ∷ 112 ∷ 97
    ∷ 110 ∷ 105 ∷ 99 ∷ 107 ∷ 101 ∷ 100 ∷ 58 ∷ 32 ∷ []

abbrev pub push_trap : Option Bytes → World → World
push_trap none w = w
push_trap (some line) w = record w { receipt_traps = w.receipt_traps ++ line ∷ [] }

abbrev pub panic_trap : Option Bytes → World → World
panic_trap none w = w
panic_trap (some line) w = push_trap (some (panicked_with ++ line)) w

-- The registers cleared, the return value dropped, and the context of the callee.
unfoldable pub enter : Bytes → Bytes → Bytes → World → World
enter account args predecessor w = record w {
  st = record w.st { registers = []; return_data = none };
  exec_ctx = some (record {
    input = args;
    signer = predecessor;
    predecessor = predecessor;
    contract = account;
    view = false;
  });
}

-- The callee is credited, then the sender debited, down to 0 at most.
unfoldable pub move_deposit : Bytes → Bytes → ℕ → World → World
move_deposit account predecessor deposit w =
    let credit_key = bal_key account in
    let debit_key = bal_key predecessor in
    let m = w.st.storage in
    let credited = write_amount m credit_key (add_u128 (read_amount m credit_key) deposit) in
    if ltb 0 deposit
    then with_storage w (write_amount credited debit_key (read_amount credited debit_key - deposit))
    else w

-- After a trap: the callee's partition restored, then the deposit given back to the sender.
unfoldable pub undo : Bytes → Bytes → ℕ → Snapshot → World → World
undo account predecessor deposit snap w =
    let st = restore_partition w.st snap account in
    let key = bal_key predecessor in
    if ltb 0 deposit
    then with_storage w
        (write_amount st.storage key (add_u128 (read_amount st.storage key) deposit))
    else record w { st = st }

-- The caller's context, registers and return value, from the world `old` of the call.
unfoldable pub leave : World → World → World
leave old w = record w {
  st = record w.st { registers = old.st.registers; return_data = old.st.return_data };
  exec_ctx = old.exec_ctx;
  current_deposit = old.current_deposit;
}

abbrev pub unwrap_or_default : Option Bytes → Bytes
unwrap_or_default none = []
unwrap_or_default (some v) = v

-- The world in which the contract's code starts.
unfoldable pub prepare : Bytes → Bytes → Bytes → ℕ → World → World
unfolding enter move_deposit
prepare account args predecessor deposit w =
    record (move_deposit account predecessor deposit (enter account args predecessor w)) {
      current_deposit = some deposit;
    }

-- What `sub_execute` does after the code ended; `w` is the world of the call, `start` the one in
-- which the code started.
unfoldable pub conclude : Bytes → Bytes → ℕ → World → World → Ran → Res (Option Bytes)
unfolding undo leave
conclude account predecessor deposit w start (link_error w') = error w'
conclude account predecessor deposit w start (crashed w') = stop Stop.panicked
conclude account predecessor deposit w start (returned w') =
    ok (some (unwrap_or_default w'.st.return_data)) (leave w w')
conclude account predecessor deposit w start (no_method w') =
    ok none (leave w (undo account predecessor deposit (snapshot_partition start.st account) w'))
conclude account predecessor deposit w start (trapped w' line) = ok none (
    leave w
      (undo account predecessor deposit (snapshot_partition start.st account) (panic_trap line w')))

unfoldable pub sub_execute :
    Modules → Bytes → Bytes → Bytes → Bytes → ℕ → World → Res (Option Bytes)
unfolding prepare conclude
sub_execute modules account method args predecessor deposit w =
    let start = prepare account args predecessor deposit w in
    elim (modules account) [
      | none ↦ ok none (push_trap (some (does_not_exist ++ account)) w)
      | some code ↦ conclude account predecessor deposit w start (code method start)
    ]
