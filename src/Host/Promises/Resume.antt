-- ===== src/Host/Promises/Resume.antt =====
-- mod.rs, `promise_yield_resume`: a yield is found in the DAG, or in the storage where another process left
-- it, and its callback runs with the payload.
pub mod Found
use near_mock.Base.{
  ℕ, zero, suc, ◌+◌, ◌-◌, ◌^◌, ◌≡◌, refl, sym, ap, ap₂, ◌∙◌, Bool, true, false, not, ◌&&◌, List, [],
  ◌∷◌, ◌++◌, Option, none, some, Bytes, arith, length, drop, get_elem?, ltb, starts_with, ◌==◌,
  if◌then◌else◌, Bool-cases, inl, inr,
}
use near_mock.Base.{ℕ_eq, bytes_Key, nat_eq_iff}
use near_mock.Base.Map.{lookup, remove}
use near_mock.Base.Utf8.{from_utf8_lossy, IsAscii, from_utf8_lossy-ascii}
use near_mock.Base.Decimal.{parse}
use near_mock.State.{u64_max}
use near_mock.Promise.{PAction, fn_call, PromiseBatch, World, Res}
use near_mock.Promise.Call.{Modules, sub_execute}
use near_mock.Host.{Vm, Out, done, trap, HostError, panicked, read_str, u64_mod}
use near_mock.Host.Promises.{data_id_prefix, yield_key, yield_spec, yield_batch_of, with_yield}

-- `trim_start_matches("yd:")`, of which each round takes three bytes.
unfoldable pub trim_start_matches : ℕ → Bytes → Bytes
trim_start_matches zero bs = bs
trim_start_matches (suc rounds) bs = elim (starts_with bs data_id_prefix) [
  | true ↦ trim_start_matches rounds (drop 3 bs)
  | false ↦ bs
]

unfoldable pub yield_index : Bytes → ℕ
unfolding trim_start_matches
yield_index id = elim (parse u64_mod (trim_start_matches (length id) id)) [
  | none ↦ u64_max
  | some n ↦ n
]

abbrev pub onto_first : ℕ → List Bytes → List Bytes
onto_first b [] = (b ∷ []) ∷ []
onto_first b (part ∷ parts) = (b ∷ part) ∷ parts

-- `split('\x1f')`
unfoldable pub split : Bytes → List Bytes
split [] = [] ∷ []
split (b ∷ bs) = let parts = split bs in if b == 31 then [] ∷ parts else onto_first b parts

-- The batch of a persisted yield, which has four parts.
unfoldable pub persisted_batch : List Bytes → Option PromiseBatch
persisted_batch [] = none
persisted_batch (a ∷ []) = none
persisted_batch (a ∷ m ∷ []) = none
persisted_batch (a ∷ m ∷ c ∷ []) = none
persisted_batch (account ∷ method ∷ creator ∷ args ∷ []) = some (record {
  deps = [];
  account = account;
  creator = creator;
  actions = fn_call method args 0 0 ∷ [];
  is_yield = true;
})
persisted_batch (a ∷ m ∷ c ∷ g ∷ e ∷ r) = none

unfoldable pub from_storage : ℕ → World → Option PromiseBatch
unfolding split persisted_batch
from_storage idx w = elim (lookup (yield_key idx) w.st.storage) [
  | none ↦ none
  | some spec ↦ persisted_batch (split (from_utf8_lossy spec))
]

unfoldable pub find_yield : ℕ → World → Option PromiseBatch
unfolding from_storage
find_yield idx w = elim (get_elem? w.dag idx) [
  | none ↦ from_storage idx w
  | some b ↦ if b.is_yield then some b else from_storage idx w
]

abbrev pub remove_handle : ℕ → World → World
remove_handle idx w = record w {
  st = record w.st { storage = remove (yield_key idx) w.st.storage };
}

-- The callback runs with the payload as its one result; then the results are put back and the handle goes,
-- whether it ended, trapped or could not be linked.
unfoldable pub resume : Modules → ℕ → PromiseBatch → Bytes → Vm → Out
resume modules idx batch payload vm = elim batch.actions [
  | [] ↦ done 0 vm
  | a ∷ r ↦ elim a [
    | fn_call method args gas dep ↦
        elim (sub_execute modules batch.account method args batch.creator 0
          (record vm.world { promise_results = some payload ∷ [] })) [
            | Res.ok v w ↦ done 1 (record vm {
              world = remove_handle idx (record w { promise_results = vm.world.promise_results });
            })
            | Res.error w ↦ done 1 (record vm {
              world = remove_handle idx (record w { promise_results = vm.world.promise_results });
            })
            | Res.stop s ↦ trap panicked vm
          ]
    | _ ↦ done 0 vm
  ]
]

unfoldable pub promise_yield_resume : Modules → (idl idp pl pp : ℕ) → Vm → Out
unfolding find_yield resume yield_index
promise_yield_resume modules idl idp pl pp vm = read_str idl idp vm (λ id.
    read_str pl pp vm (λ payload. elim (find_yield (yield_index id) vm.world) [
      | none ↦ done 0 vm
      | some batch ↦ resume modules (yield_index id) batch payload vm
    ]))
