-- ===== src/Host/Actions/Calls.antt =====
-- hosts.rs: the functions that add actions keep what Host/Promises/Grows says.
use near_mock.Base.{ℕ, Bool, true, false, [], Option, none, some, Bytes, get_elem?, ◌==◌}
use near_mock.Base.{ℕ_eq}
use near_mock.Base.Utf8.{from_utf8_lossy, from_le_bytes}
use near_mock.Promise.{PAction, fn_call, stake, transfer_to_gas_key, PromiseBatch, World}
use near_mock.Host.{
  Vm, Out, done, trap, memory_access, invalid_key, panicked, Slice, outside, bytes, broken, slice,
}
use near_mock.Host.Program.Rules.{Holds, on_slice-Holds, read_u128-Holds}
use near_mock.Host.Promises.{with_action}
use near_mock.Host.Promises.Grows.{GrowsQuietly, GrowsQuietly-refl}
use near_mock.Host.Promises.Calls.{action-Grows}
use near_mock.Host.Actions.{
  record_action, read_or_empty, checked, checked_key, is_ed25519, ed25519_key,
  promise_batch_action_function_call_weight, promise_batch_action_stake,
  promise_batch_action_transfer_to_gas_key,
}

module _ (vm : Vm) where
  abbrev Quietly : World → Type 0
  Quietly = GrowsQuietly vm.world

  same : Quietly vm.world
  same = GrowsQuietly-refl vm.world

  pub record_action-Grows :
      (idx : ℕ) (a : PAction) → Holds (GrowsQuietly vm.world) (record_action idx a vm)
  unfolding record_action
  record_action-Grows idx a = go (get_elem? vm.world.dag idx)
    where
      go :
          (o : Option PromiseBatch)
          → Holds Quietly
              (elim o [ none ↦ trap panicked vm | some b ↦ done 0 (with_action idx a vm) ])
      go none = same
      go (some b) = action-Grows vm.world idx a

  pub checked-Grows :
      (len ptr : ℕ) (next : Bytes → Out)
      → ((v : Bytes) → Holds (GrowsQuietly vm.world) (next v))
      → Holds (GrowsQuietly vm.world) (checked len ptr vm next)
  unfolding checked
  checked-Grows len ptr next h =
      on_slice-Holds Quietly (slice ptr len vm.memory) vm (trap memory_access vm) next same same h

  pub checked_key-Grows :
      (len ptr : ℕ) (next : Bytes → Out)
      → ((v : Bytes) → Holds (GrowsQuietly vm.world) (next v))
      → Holds (GrowsQuietly vm.world) (checked_key len ptr vm next)
  unfolding checked_key
  checked_key-Grows len ptr next h = go (len == 33)
    where
      go :
          (b : Bool)
          → Holds Quietly
              (elim b [ true ↦ checked len ptr vm next | false ↦ trap memory_access vm ])
      go true = checked-Grows len ptr next h
      go false = same

  ed_next :
      (next : Bytes → Out) (pk : Bytes)
      → Holds Quietly (next pk)
      → Holds Quietly (elim (is_ed25519 pk) [ true ↦ next pk | false ↦ trap invalid_key vm ])
  ed_next next pk h = go (is_ed25519 pk)
    where
      go : (b : Bool) → Holds Quietly (elim b [ true ↦ next pk | false ↦ trap invalid_key vm ])
      go true = h
      go false = same

  pub ed25519_key-Grows :
      (len ptr : ℕ) (next : Bytes → Out)
      → ((v : Bytes) → Holds (GrowsQuietly vm.world) (next v))
      → Holds (GrowsQuietly vm.world) (ed25519_key len ptr vm next)
  unfolding ed25519_key
  ed25519_key-Grows len ptr next h =
      checked_key-Grows len ptr
        (λ pk. elim (is_ed25519 pk) [ true ↦ next pk | false ↦ trap invalid_key vm ])
        (λ pk. ed_next next pk (h pk))

  read_or_empty-Grows :
      (len ptr : ℕ) (next : Bytes → Out)
      → ((v : Bytes) → Holds Quietly (next v))
      → Holds Quietly (read_or_empty len ptr vm next)
  unfolding read_or_empty
  read_or_empty-Grows len ptr next h =
      on_slice-Holds Quietly (slice ptr len vm.memory) vm (next []) (λ v. next (from_utf8_lossy v))
        same (h []) (λ v. h (from_utf8_lossy v))

  pub function_call_weight-Grows :
      (idx ml mp al ap dep_ptr gas : ℕ)
      → Holds
          (GrowsQuietly vm.world)
          (promise_batch_action_function_call_weight idx ml mp al ap dep_ptr gas vm)
  unfolding promise_batch_action_function_call_weight
  function_call_weight-Grows idx ml mp al ap dep_ptr gas = read_or_empty-Grows ml mp _ (λ method.
      read_or_empty-Grows al ap _ (λ args.
        read_u128-Holds Quietly dep_ptr vm
          (λ dep. done 0 (with_action idx (fn_call method args gas dep) vm)) same
          (λ dep. action-Grows vm.world idx (fn_call method args gas dep))))

  pub stake-Grows :
      (idx amt_ptr pk_len pk_ptr : ℕ)
      → Holds (GrowsQuietly vm.world) (promise_batch_action_stake idx amt_ptr pk_len pk_ptr vm)
  unfolding promise_batch_action_stake
  stake-Grows idx amt_ptr pk_len pk_ptr =
      go (pk_len == 33) (slice amt_ptr 16 vm.memory) (slice pk_ptr pk_len vm.memory)
    where
      ed :
          (amt pk : Bytes) (b : Bool)
          → Holds Quietly (elim b [
            | false ↦ trap invalid_key vm
            | true ↦ record_action idx (stake (from_le_bytes amt)) vm
          ])
      ed amt pk true = record_action-Grows idx (stake (from_le_bytes amt))
      ed amt pk false = same

      go :
          (b : Bool) (s t : Slice)
          → Holds Quietly (elim b [
            | false ↦ trap memory_access vm
            | true ↦ elim s [
              | outside ↦ trap memory_access vm
              | broken ↦ elim t [
                | outside ↦ trap memory_access vm
                | broken ↦ trap panicked vm
                | bytes pk ↦ trap panicked vm
              ]
              | bytes amt ↦ elim t [
                | outside ↦ trap memory_access vm
                | broken ↦ trap panicked vm
                | bytes pk ↦ elim (is_ed25519 pk) [
                  | false ↦ trap invalid_key vm
                  | true ↦ record_action idx (stake (from_le_bytes amt)) vm
                ]
              ]
            ]
          ])
      go false s t = same
      go true outside t = same
      go true broken outside = same
      go true broken broken = same
      go true broken (bytes pk) = same
      go true (bytes amt) outside = same
      go true (bytes amt) broken = same
      go true (bytes amt) (bytes pk) = ed amt pk (is_ed25519 pk)

  pub transfer_to_gas_key-Grows :
      (idx key_len key_ptr amt_ptr : ℕ)
      → Holds
          (GrowsQuietly vm.world)
          (promise_batch_action_transfer_to_gas_key idx key_len key_ptr amt_ptr vm)
  unfolding promise_batch_action_transfer_to_gas_key
  transfer_to_gas_key-Grows idx key_len key_ptr amt_ptr =
      go (slice key_ptr key_len vm.memory) (slice amt_ptr 16 vm.memory)
    where
      go :
          (s t : Slice)
          → Holds Quietly (elim s [
            | outside ↦ trap memory_access vm
            | broken ↦ elim t [
              | outside ↦ trap memory_access vm
              | broken ↦ trap panicked vm
              | bytes amt ↦ trap panicked vm
            ]
            | bytes key ↦ elim t [
              | outside ↦ trap memory_access vm
              | broken ↦ trap panicked vm
              | bytes amt ↦ record_action idx (transfer_to_gas_key (from_le_bytes amt)) vm
            ]
          ])
      go outside t = same
      go broken outside = same
      go broken broken = same
      go broken (bytes amt) = same
      go (bytes key) outside = same
      go (bytes key) broken = same
      go (bytes key) (bytes amt) = record_action-Grows idx (transfer_to_gas_key (from_le_bytes amt))
