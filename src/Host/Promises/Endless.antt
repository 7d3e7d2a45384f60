-- ===== src/Host/Promises/Endless.antt =====
-- mod.rs, `promise_then`, with promises.rs, `execute_promise`: a promise that depends on itself.
use near_mock.Base.{
  ℕ, zero, suc, ◌≡◌, refl, List, [], ◌∷◌, ◌++◌, none, some, Bytes, length, get_elem?,
}
use near_mock.Base.{ℕ_eq}
use near_mock.Base.Map.{lookup}
use near_mock.Base.Utf8.{from_utf8_lossy}
use near_mock.Promise.{PromiseBatch, World, out_of_fuel, stop, fn_call, dag_push}
use near_mock.Promise.Call.{Modules}
use near_mock.Promise.Execute.{
  mark_executed, run_deps, execute_batch, execute_promise_uncached, execute_once, execute_promise,
}
use near_mock.Host.{Vm, done, bytes, slice, read_str}
use near_mock.Host.Promises.{promise_then}

-- Executing it asks for itself, whatever the depth.
self-endless :
    (modules : Modules) (fuel idx : ℕ) (b : PromiseBatch) (w : World)
    → get_elem? w.dag idx ≡ some b
    → b.deps ≡ idx ∷ []
    → lookup idx w.outcomes ≡ none
    → execute_promise modules fuel idx w ≡ stop out_of_fuel
unfolding execute_promise execute_once execute_promise_uncached execute_batch run_deps mark_executed
self-endless modules zero idx b w e d fresh = refl
self-endless modules (suc n) idx b w e d fresh =
    rw
      (
        fresh,
        e,
        d,
        execute_once,
        execute_promise_uncached,
        execute_batch,
        run_deps,
        self-endless modules n idx b (mark_executed idx w) e d fresh,
      )
      refl

get-last :
    (dag : List PromiseBatch) (b : PromiseBatch) → get_elem? (dag ++ b ∷ []) (length dag) ≡ some b
get-last [] b = refl
get-last (x ∷ dag) b = get-last dag b

-- `promise_then` with the index that the new promise gets: the call is accepted, and executing the
-- promise recurses without end, at every depth, if the memory of receipts has no result for it.
pub promise_then-endless :
    (modules : Modules) (fuel acl acp ml mp al ap gas : ℕ) (account method args : Bytes) (vm : Vm)
    → slice acp acl vm.memory ≡ bytes account
    → slice mp ml vm.memory ≡ bytes method
    → slice ap al vm.memory ≡ bytes args
    → lookup (length vm.world.dag) vm.world.outcomes ≡ none
    → (vm' : Vm) × (promise_then (length vm.world.dag) acl acp ml mp al ap gas vm
        ≡ done (length vm.world.dag) vm')
      × (execute_promise modules fuel (length vm.world.dag) vm'.world ≡ stop out_of_fuel)
unfolding promise_then read_str dag_push
promise_then-endless modules fuel acl acp ml mp al ap gas account method args vm a m r fresh =
    let idx = length vm.world.dag in
    let pushed =
      dag_push (idx ∷ []) (from_utf8_lossy account)
        (fn_call (from_utf8_lossy method) (from_utf8_lossy args) gas 0 ∷ []) vm.world in
    (
      record vm { world = pushed.1 },
      rw (a, m, r, promise_then, read_str, dag_push) refl,
      self-endless modules fuel idx _ pushed.1 (get-last vm.world.dag _) refl fresh,
    )
