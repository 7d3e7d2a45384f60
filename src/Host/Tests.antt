-- ===== src/Host/Tests.antt =====
-- near_mock/hosts.rs: host functions run on a small state.
use near_mock.Base.{
  ◌≡◌, ◌≢◌, refl, arith, Bool, true, false, [], ◌∷◌, Option, none, some, Bytes, bytes_Key,
}
use near_mock.Base.Map.{Map, lookup}
use near_mock.State.{MockState, prefixed_key}
use near_mock.Gas.{default}
use near_mock.Gas.Staking.{RunCfg}
use near_mock.Promise.{World, ExecCtx}
use near_mock.Host.{Vm, Out, done, trap}
use near_mock.Host.Storage.{storage_of}
use near_mock.Host.Storage.Confined.{Confined}
use near_mock.Host.Guest.{Guest, write, read, delete, load_register, run, run-Confined}
use near_mock.Host.Program.{stop, compute, call}
use near_mock.Host.Program.Contracts.{Code}
use near_mock.Host.Guest.{HostCall}
use near_mock.Host.Registers.{write_register, read_register}
use near_mock.Host.Registers.Copied.{Copied, write_register-read_register}
use near_mock.Host.Guest.Atomic.{guest_modules, sub_execute-leaves_all}
use near_mock.Host.{panics}
use near_mock.Host.Guest.{host_call}
use near_mock.Host.Guest.Tame.{run-fine, After}
use near_mock.Host.Storage.Refines.{fetch, Fulfils, store_of}
use near_mock.Host.Storage.Refines.Calls.{host_call-Fulfils}
use near_mock.Promise.{Res, Stop}
use near_mock.Promise.Call.{Modules}
use near_mock.Promise.Call.Laws.{after}
use near_mock.Promise.Execute.{execute_promise}
use near_mock.Host.Promises.{promise_then, with_yield}
use near_mock.Host.Promises.Endless.{promise_then-endless}
use near_mock.Host.Promises.Grows.{Grows}
use near_mock.Host.Program.Contracts.{execute_code}
use near_mock.Host.Guest.Atomic.{input_of, no_line}
use near_mock.Host.Contract.{
  Setup, Call, quiet, promise, batch_create, transfer_action, return_promise, full_call,
}
use near_mock.Bls.Tests.{toy_blst}
use near_mock.Bn254.Tests.{toy_bn}
use near_mock.Host.Contract.Modules.{execute_code-Grows}
use near_mock.Promise.Call.{sub_execute, prepare}
use near_mock.Promise.Call.Traps.{FailedWith}

abbrev alice : Bytes
alice = 97 ∷ []

abbrev bob : Bytes
bob = 98 ∷ []

abbrev start_state : MockState
start_state = record {
  storage = (98 ∷ 1 ∷ 7 ∷ [], 9 ∷ []) ∷ [];
  registers = [];
  return_data = none;
  view = false;
  touched = [];
}

abbrev start_vm : Vm
start_vm = record {
  world = record {
    st = start_state;
    dag = [];
    executed = [];
    outcomes = [];
    promise_results = [];
    mirror = [];
    pending_return = none;
    fail_receipts = [];
    receipt_traps = [];
    exec_ctx = some (record {
      input = [];
      signer = alice;
      predecessor = alice;
      contract = alice;
      view = false;
    });
    current_deposit = none;
    logs = [];
    receipt_queue = [];
    defer_receipts = false;
  };
  memory = 7 ∷ 5 ∷ [];
  gas = 1000000000000;
}

abbrev cfg : RunCfg
cfg = record { gas = default; staking = true }

-- Write 5 under 7, read it back, remove it.
abbrev guest : Guest
guest =
    call (write 1 0 1 1 0)
      (λ r vm. call (read 1 0 3) (λ r' vm'. call (delete 1 0 4) (λ r'' vm''. stop)))

entries_after : Out → Map Bytes Bytes
entries_after (done r vm) = storage_of vm
entries_after (trap e vm) = storage_of vm

is_done : Out → Bool
is_done (done r vm) = true
is_done (trap e vm) = false

guest_ends : is_done (run cfg [] guest start_vm) ≡ true
unfolding is_done run near_mock.Host.Storage.storage_write near_mock.Host.slice
    near_mock.Host.charge_gas default near_mock.Gas.Trie.trie_charge_write prefixed_key
    near_mock.Host.Storage.storage_read near_mock.Gas.Staking.apply_staking_delta
    near_mock.State.Balance.write_amount near_mock.State.Balance.bal_key
    near_mock.Gas.Trie.trie_charge near_mock.Host.write_reg near_mock.Host.Storage.storage_remove
guest_ends = refl

run-Confined_example : Confined start_vm (run cfg [] guest start_vm)
run-Confined_example = run-Confined cfg [] guest start_vm

guest_leaves_bob :
    lookup (98 ∷ 1 ∷ 7 ∷ []) (entries_after (run cfg [] guest start_vm)) ≡ some (9 ∷ [])
unfolding entries_after run near_mock.Host.Storage.storage_write near_mock.Host.slice
    near_mock.Host.charge_gas default near_mock.Gas.Trie.trie_charge_write prefixed_key
    near_mock.Host.Storage.storage_read near_mock.Gas.Staking.apply_staking_delta
    near_mock.State.Balance.write_amount near_mock.State.Balance.bal_key
    near_mock.Gas.Trie.trie_charge near_mock.Host.write_reg near_mock.Host.Storage.storage_remove
guest_leaves_bob = refl

guest_removes :
    lookup (prefixed_key alice (7 ∷ [])) (entries_after (run cfg [] guest start_vm)) ≡ none
unfolding entries_after run near_mock.Host.Storage.storage_write near_mock.Host.slice
    near_mock.Host.charge_gas default near_mock.Gas.Trie.trie_charge_write prefixed_key
    near_mock.Host.Storage.storage_read near_mock.Gas.Staking.apply_staking_delta
    near_mock.State.Balance.write_amount near_mock.State.Balance.bal_key
    near_mock.Gas.Trie.trie_charge near_mock.Host.write_reg near_mock.Host.Storage.storage_remove
guest_removes = refl

vm_after : Out → Vm
vm_after (done r vm) = vm
vm_after (trap e vm) = vm

abbrev saved : Vm
saved = vm_after (write_register 1 1 4 start_vm)

-- Byte 1 of the memory, 5, goes to register 4 and from there to byte 0.
write_register-read_register_example : Copied 0 (5 ∷ []) saved (read_register cfg 4 0 saved)
unfolding vm_after write_register near_mock.Host.slice near_mock.Host.charge_gas
    near_mock.Host.write_reg default
write_register-read_register_example =
    write_register-read_register cfg 1 1 4 0 0 (5 ∷ []) start_vm saved refl refl (omega arith)
      (omega arith) (omega arith)

-- It writes 5 under 7 and traps, since register 9 is not set.
abbrev spoiler : Code HostCall
spoiler = record {
  program = call (write 1 0 1 1 0) (λ r vm. call (load_register 9 0) (λ r' vm'. stop));
  memory = 7 ∷ 5 ∷ [];
  gas = 1000000000000;
}

abbrev method_of : Bytes → Option (Code HostCall)
method_of method = some spoiler

abbrev codes : Bytes → Option (Bytes → Option (Code HostCall))
codes account = some method_of

abbrev IsKept : Map Bytes Bytes → Type 0
IsKept m = (k : Bytes) → k ≢ prefixed_key alice [] → lookup k m ≡ lookup k start_vm.world.st.storage

sub_execute-leaves_all_example :
    FailedWith IsKept (sub_execute (guest_modules cfg codes) alice [] [] bob 0 start_vm.world)
unfolding run prepare near_mock.Host.Program.Contracts.execute_code
    near_mock.Promise.Call.move_deposit near_mock.Promise.Call.enter
    near_mock.Host.Storage.storage_write near_mock.Host.slice near_mock.Host.charge_gas default
    near_mock.Gas.Trie.trie_charge_write prefixed_key near_mock.Host.Registers.read_register
    near_mock.Gas.Staking.apply_staking_delta near_mock.State.Balance.write_amount
    near_mock.State.Balance.bal_key
sub_execute-leaves_all_example =
    sub_execute-leaves_all cfg codes alice method_of refl [] [] bob start_vm.world (refl, tt) refl

-- Reads back key 7, which bob has under his name only.
host_call-Fulfils_example :
    Fulfils alice (store_of start_vm) (fetch (7 ∷ [])) 3 (host_call cfg [] (read 1 0 3) start_vm)
unfolding near_mock.Host.slice
host_call-Fulfils_example = host_call-Fulfils cfg [] (read 1 0 3) start_vm (fetch (7 ∷ [])) 3 refl

any_After : (o : Out) → After (λ r vm. Unit) o
any_After (done r vm) = tt
any_After (trap e vm) = tt

-- The only call reads one byte of its memory.
run-fine_example : panics (run cfg [] (call (read 1 0 3) (λ r vm. stop)) start_vm) ≡ false
unfolding near_mock.Host.slice
run-fine_example =
    run-fine cfg [] (call (read 1 0 3) (λ r vm. stop)) start_vm
      (omega arith, any_After (host_call cfg [] (read 1 0 3) start_vm))

abbrev promise_vm : Vm
promise_vm = record start_vm { memory = 98 ∷ 109 ∷ 123 ∷ [] }

abbrev no_modules : Modules
no_modules account = none

-- A first promise that depends on promise 0, which is itself.
promise_then-endless_example :
    (vm' : Vm) × (promise_then 0 1 0 1 1 1 2 5 promise_vm ≡ done 0 vm')
    × (execute_promise no_modules 1000 0 vm'.world ≡ Res.stop Stop.out_of_fuel)
unfolding near_mock.Host.slice
promise_then-endless_example =
    promise_then-endless no_modules 1000 1 0 1 1 1 2 5 (98 ∷ []) (109 ∷ []) (123 ∷ []) promise_vm
      refl refl refl refl

abbrev setup : Setup
setup = record {
  cfg = cfg;
  env = record {
    signer = none;
    attach = none;
    block_ts = none;
    block_height = none;
    epoch = none;
    chain_id = none;
    base_ts = some 0;
    advance_secs = 0;
    unix_secs = 0;
    prepaid_fuel = 1000000000000;
    seed = none;
    entropy = 0;
  };
  crates = record {
    json = λ v. none;
    sha256_digest = λ v. [];
    keccak256_digest = λ v. [];
    keccak512_digest = λ v. [];
    ripemd160_digest = λ v. [];
    ed25519_verify_impl = λ s m k. false;
    blst = toy_blst;
    bn = toy_bn;
    k256 = record {
      Signature = Unit;
      from_slice = λ v. none;
      recover_from_prehash = λ h s v. none;
    };
    p256 = record {
      Signature = Unit;
      Key = Unit;
      from_slice = λ v. none;
      from_sec1_bytes = λ v. none;
      verify_prehash = λ k m s. false;
    };
  };
}

-- It makes a promise for bob, adds a transfer to it and returns it.
abbrev caller : Code Call
caller = record {
  program = call (quiet (promise (batch_create 1 0))) (λ r vm.
      call (quiet (promise (transfer_action r 1)))
        (λ r' vm'. call (return_promise r) (λ r'' vm''. stop)));
  memory = 98 ∷ 109 ∷ 123 ∷ [];
  gas = 1000000000000;
}

execute_code-Grows_example :
    Grows start_vm.world (
      after (execute_code no_line (λ v. full_call setup (input_of v)) (some caller) start_vm.world))
execute_code-Grows_example = execute_code-Grows no_line setup (some caller) start_vm.world

abbrev yielded : World
yielded = with_yield (109 ∷ []) (123 ∷ 125 ∷ []) 5 2 start_vm.world
