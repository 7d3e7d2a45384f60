-- ===== src/Host/Contract/Grown.antt =====
-- What any contract does to the state, whatever it calls.
use near_mock.Base.{◌≡◌, sym, ap, subst, false, ◌∙◌, Bytes}
use near_mock.Base.{bytes_Key}
use near_mock.Base.Map.{lookup}
use near_mock.Base.Utf8.{from_utf8_lossy}
use near_mock.Promise.{World, contract_of}
use near_mock.Promise.{
  add_key, delete_key, delete_account, add_gas_key, deploy_global_contract, use_global_contract,
}
use near_mock.Promise.Execute.Calls.{Extends}
use near_mock.Host.{Vm, Out, done, trap, host_call_base_gas}
use near_mock.Host.Guest.{perform-Confined}
use near_mock.Host.Storage.Confined.{Confined, frame, belongs}
use near_mock.Host.Program.Rules.{Holds, Holds-map, charge_gas-Holds}
use near_mock.Host.Promises.Grows.{Grows, Grows-refl, GrowsQuietly, GrowsQuietly-refl, Extends-refl}
use near_mock.Host.Promises.{promise_return}
use near_mock.Host.Promises.Calls.{
  promise_batch_create-Grows, promise_batch_then-Grows, promise_batch_action_function_call-Grows,
  promise_batch_action_transfer-Grows, promise_create-Grows, promise_then-Grows, promise_and-Grows,
  promise_results_count-Grows, promise_result-Grows, promise_return-Grows,
  promise_yield_create-Grows,
}
use near_mock.Host.Actions.Calls.{
  record_action-Grows, checked-Grows, checked_key-Grows, ed25519_key-Grows,
  function_call_weight-Grows, stake-Grows, transfer_to_gas_key-Grows,
}
use near_mock.Host.Context.{
  current_account_id, signer_account_id, predecessor_account_id, account_balance,
  account_locked_balance, attached_deposit, used_gas, prepaid_gas, block_timestamp, block_index,
  epoch_height, storage_usage, current_contract_code, chain_id, abort, removed_host,
}
use near_mock.Host.Context.Calls.{
  put_register-Grows, put_u128-Grows, write_only-Grows, log_utf8-Grows, panic_utf8-Grows,
}
use near_mock.Host.Crypto.{keccak512, ripemd160, schnorr_verify_bip340}
use near_mock.Host.Crypto.Calls.{
  digest_to_register-Grows, sha256-Grows, keccak256-Grows, ed25519_verify-Grows,
}
use near_mock.Host.Actions.{
  promise_batch_action_add_key_with_full_access, promise_batch_action_add_key_with_function_call,
  promise_batch_action_delete_key, promise_batch_action_delete_account,
  promise_batch_action_add_gas_key_with_full_access,
  promise_batch_action_add_gas_key_with_function_call, promise_batch_action_deploy_global_contract,
  promise_batch_action_deploy_global_contract_by_account_id,
  promise_batch_action_use_global_contract, promise_batch_action_use_global_contract_by_account_id,
}
use near_mock.Host.Contract.{
  CurveCall, bls, bls_pairing, bn_sum, bn_multiexp, bn_pairing, recover, curve_call, curve,
}
use near_mock.Host.Contract.{BlockCall, signer_key, seed, log_wide, block, block_call}
use near_mock.Host.Block.Calls.{
  signer_account_pk-Grows, random_seed-Grows, validator_stake-Grows, validator_total_stake-Grows,
  log_utf16-Grows,
}
use near_mock.Host.Curves.Calls.{
  bls12381-Grows, bls12381_pairing_check-Grows, alt_bn128_g1_sum-Grows, alt_bn128_g1_multiexp-Grows,
  alt_bn128_pairing_check-Grows, p256_verify_host-Grows, ecrecover_host-Grows,
}
use near_mock.Host.Contract.{
  Setup, PromiseCall, batch_create, batch_then, call_action, transfer_action, create, then_after,
  join, results_count, result, yield_create, ActionCall, weighted_call, add_key_full, add_key_call,
  add_gas_key_full, add_gas_key_call, gas_key_transfer, deploy_global, deploy_global_by, use_global,
  use_global_by, ContextCall, account_id, signer_id, predecessor_id, contract_code, chain, balance,
  locked_balance, deposit, gas_used, gas_prepaid, timestamp, height, epoch, usage, aborting,
  removed, log, panicking, CryptoCall, hash_sha256, hash_keccak256, hash_keccak512, hash_ripemd160,
  schnorr, ed25519, basic, promise, action, context, crypto, quiet, return_promise, QuietCall, Call,
  quiet_body, quiet_call, full_call, promise_call, action_call, context_call, crypto_call,
}

-- Calls of storage and register functions leave the DAG and all else as they are.
reached :
    (w w' : World)
    → ((k : Bytes)
        → belongs (contract_of w.exec_ctx) k ≡ false
        → lookup k w'.st.storage ≡ lookup k w.st.storage)
    → frame w' ≡ frame w
    → GrowsQuietly w w'
reached w w' out e = (
  (
    (λ k o y. out k o),
    ap (λ f. (f.0, f.1, f.2, f.5, f.6, f.7, f.8, f.9, f.11, f.12)) e,
    subst (Extends w.dag) (sym (ap (λ f. f.3) e)) (Extends-refl w.dag),
  ),
  (λ p. ap (λ f. f.4) e ∙ p),
)

Confined-Grows : (vm : Vm) (o : Out) → Confined vm o → Holds (GrowsQuietly vm.world) o
Confined-Grows vm (done r vm') h = reached vm.world vm'.world h.0 h.1
Confined-Grows vm (trap e vm') h = reached vm.world vm'.world h.0 h.1

promise_call-Grows : (c : PromiseCall) (vm : Vm) → Holds (GrowsQuietly vm.world) (promise_call c vm)
unfolding promise_call
promise_call-Grows (batch_create l p) vm = promise_batch_create-Grows vm l p
promise_call-Grows (batch_then idx l p) vm = promise_batch_then-Grows vm idx l p
promise_call-Grows (call_action idx ml mp al ap d g) vm =
    promise_batch_action_function_call-Grows vm idx ml mp al ap d g
promise_call-Grows (transfer_action idx p) vm = promise_batch_action_transfer-Grows vm idx p
promise_call-Grows (create acl acp ml mp al ap g) vm = promise_create-Grows vm acl acp ml mp al ap g
promise_call-Grows (then_after idx acl acp ml mp al ap g) vm =
    promise_then-Grows vm idx acl acp ml mp al ap g
promise_call-Grows (join ptr count) vm = promise_and-Grows vm ptr count
promise_call-Grows results_count vm = promise_results_count-Grows vm
promise_call-Grows (result idx rid) vm = promise_result-Grows vm idx rid
promise_call-Grows (yield_create ml mp al ap g reg) vm =
    promise_yield_create-Grows vm ml mp al ap g reg

action_call-Grows : (c : ActionCall) (vm : Vm) → Holds (GrowsQuietly vm.world) (action_call c vm)
unfolding action_call promise_batch_action_add_key_with_full_access
    promise_batch_action_add_key_with_function_call promise_batch_action_delete_key
    promise_batch_action_delete_account promise_batch_action_add_gas_key_with_full_access
    promise_batch_action_add_gas_key_with_function_call promise_batch_action_deploy_global_contract
    promise_batch_action_deploy_global_contract_by_account_id
    promise_batch_action_use_global_contract promise_batch_action_use_global_contract_by_account_id
action_call-Grows (weighted_call idx ml mp al ap d g) vm =
    function_call_weight-Grows vm idx ml mp al ap d g
action_call-Grows (ActionCall.stake idx a l p) vm = stake-Grows vm idx a l p
action_call-Grows (add_key_full idx l p) vm =
    ed25519_key-Grows vm l p _ (λ pk. record_action-Grows vm idx (add_key pk))
action_call-Grows (add_key_call idx l p) vm =
    ed25519_key-Grows vm l p _ (λ pk. record_action-Grows vm idx (add_key pk))
action_call-Grows (ActionCall.delete_key idx l p) vm =
    checked_key-Grows vm l p _ (λ pk. record_action-Grows vm idx (delete_key pk))
action_call-Grows (add_gas_key_full idx l p) vm =
    ed25519_key-Grows vm l p _ (λ pk. record_action-Grows vm idx (add_gas_key pk))
action_call-Grows (add_gas_key_call idx l p) vm =
    ed25519_key-Grows vm l p _ (λ pk. record_action-Grows vm idx (add_gas_key pk))
action_call-Grows (ActionCall.delete_account idx l p) vm =
    checked-Grows vm l p _ (λ v. record_action-Grows vm idx (delete_account (from_utf8_lossy v)))
action_call-Grows (gas_key_transfer idx l p a) vm = transfer_to_gas_key-Grows vm idx l p a
action_call-Grows (deploy_global idx l p) vm =
    checked-Grows vm l p _ (λ v. record_action-Grows vm idx (deploy_global_contract v))
action_call-Grows (deploy_global_by idx l p) vm =
    checked-Grows vm l p _ (λ v. record_action-Grows vm idx (deploy_global_contract v))
action_call-Grows (use_global idx l p) vm =
    checked-Grows vm l p _
      (λ v. record_action-Grows vm idx (use_global_contract (from_utf8_lossy v)))
action_call-Grows (use_global_by idx l p) vm =
    checked-Grows vm l p _
      (λ v. record_action-Grows vm idx (use_global_contract (from_utf8_lossy v)))

context_call-Grows :
    (s : Setup) (c : ContextCall) (vm : Vm)
    → Holds (GrowsQuietly vm.world) (context_call s.cfg s.env c vm)
unfolding context_call current_account_id signer_account_id predecessor_account_id account_balance
    account_locked_balance attached_deposit used_gas prepaid_gas block_timestamp block_index
    epoch_height storage_usage current_contract_code chain_id abort removed_host
context_call-Grows s (account_id rid) vm = put_register-Grows vm rid _
context_call-Grows s (signer_id rid) vm = put_register-Grows vm rid _
context_call-Grows s (predecessor_id rid) vm = put_register-Grows vm rid _
context_call-Grows s (contract_code rid) vm = write_only-Grows vm rid _
context_call-Grows s (chain rid) vm = write_only-Grows vm rid _
context_call-Grows s (balance ptr) vm = put_u128-Grows vm ptr _
context_call-Grows s (locked_balance ptr) vm = put_u128-Grows vm ptr _
context_call-Grows s (deposit ptr) vm = put_u128-Grows vm ptr _
context_call-Grows s gas_used vm = GrowsQuietly-refl vm.world
context_call-Grows s gas_prepaid vm = GrowsQuietly-refl vm.world
context_call-Grows s timestamp vm = GrowsQuietly-refl vm.world
context_call-Grows s height vm = GrowsQuietly-refl vm.world
context_call-Grows s epoch vm = GrowsQuietly-refl vm.world
context_call-Grows s usage vm = GrowsQuietly-refl vm.world
context_call-Grows s aborting vm = GrowsQuietly-refl vm.world
context_call-Grows s removed vm = GrowsQuietly-refl vm.world
context_call-Grows s (log len ptr) vm = log_utf8-Grows vm s.cfg len ptr
context_call-Grows s (panicking len ptr) vm = panic_utf8-Grows vm len ptr

crypto_call-Grows :
    (s : Setup) (c : CryptoCall) (vm : Vm)
    → Holds (GrowsQuietly vm.world) (crypto_call s.crates c vm)
unfolding crypto_call keccak512 ripemd160 schnorr_verify_bip340
crypto_call-Grows s (hash_sha256 l p rid) vm = sha256-Grows s.crates.sha256_digest l p rid vm
crypto_call-Grows s (hash_keccak256 l p rid) vm =
    keccak256-Grows s.crates.keccak256_digest l p rid vm
crypto_call-Grows s (hash_keccak512 l p rid) vm =
    digest_to_register-Grows s.crates.keccak512_digest l p rid vm
crypto_call-Grows s (hash_ripemd160 l p rid) vm =
    digest_to_register-Grows s.crates.ripemd160_digest l p rid vm
crypto_call-Grows s (schnorr pk sig msg len) vm = GrowsQuietly-refl vm.world
crypto_call-Grows s (ed25519 sl sp ml mp kl kp) vm =
    ed25519_verify-Grows s.crates.ed25519_verify_impl sl sp ml mp kl kp vm

curve_call-Grows :
    (s : Setup) (c : CurveCall) (vm : Vm)
    → Holds (GrowsQuietly vm.world) (curve_call s.cfg s.crates c vm)
unfolding curve_call
curve_call-Grows s (bls kind l p rid) vm = bls12381-Grows s.crates.blst kind l p rid vm
curve_call-Grows s (bls_pairing l p) vm = bls12381_pairing_check-Grows s.crates.blst l p vm
curve_call-Grows s (bn_sum l p rid) vm = alt_bn128_g1_sum-Grows s.crates.bn s.cfg.gas l p rid vm
curve_call-Grows s (bn_multiexp l p rid) vm =
    alt_bn128_g1_multiexp-Grows s.crates.bn s.cfg.gas l p rid vm
curve_call-Grows s (bn_pairing l p) vm = alt_bn128_pairing_check-Grows s.crates.bn s.cfg.gas l p vm
curve_call-Grows s (CurveCall.p256 sl sp ml mp kl kp) vm =
    p256_verify_host-Grows s.crates.p256 s.cfg.gas sl sp ml mp kl kp vm
curve_call-Grows s (recover hl hp sl sp v flag rid) vm =
    ecrecover_host-Grows s.crates.k256 s.cfg.gas hl hp sl sp v flag rid vm

block_call-Grows :
    (s : Setup) (c : BlockCall) (vm : Vm) → Holds (GrowsQuietly vm.world) (block_call s c vm)
unfolding block_call
block_call-Grows s (signer_key rid) vm = signer_account_pk-Grows vm rid
block_call-Grows s (seed rid) vm = random_seed-Grows vm s.env rid
block_call-Grows s (BlockCall.stake_of l p out) vm =
    validator_stake-Grows s.crates.json vm s.cfg.gas l p out
block_call-Grows s (BlockCall.total_stake p) vm =
    validator_total_stake-Grows s.crates.json vm s.cfg.gas p
block_call-Grows s (log_wide l p) vm = log_utf16-Grows vm s.cfg.gas l p

quiet_body-Grows :
    (s : Setup) (arg : Bytes) (c : QuietCall) (vm : Vm)
    → Holds (GrowsQuietly vm.world) (quiet_body s arg c vm)
unfolding quiet_body
quiet_body-Grows s arg (basic c) vm = Confined-Grows vm _ (perform-Confined s.cfg arg c vm)
quiet_body-Grows s arg (promise c) vm = promise_call-Grows c vm
quiet_body-Grows s arg (action c) vm = action_call-Grows c vm
quiet_body-Grows s arg (context c) vm = context_call-Grows s c vm
quiet_body-Grows s arg (crypto c) vm = crypto_call-Grows s c vm
quiet_body-Grows s arg (curve c) vm = curve_call-Grows s c vm
quiet_body-Grows s arg (block c) vm = block_call-Grows s c vm

pub quiet_call-Grows :
    (s : Setup) (arg : Bytes) (c : QuietCall) (vm : Vm)
    → Holds (GrowsQuietly vm.world) (quiet_call s arg c vm)
unfolding quiet_call
quiet_call-Grows s arg c vm =
    charge_gas-Holds (GrowsQuietly vm.world) host_call_base_gas vm (quiet_body s arg c)
      (GrowsQuietly-refl vm.world) (λ g. quiet_body-Grows s arg c (record vm { gas = g }))

pub full_call-Grows :
    (s : Setup) (arg : Bytes) (c : Call) (vm : Vm) → Holds (Grows vm.world) (full_call s arg c vm)
unfolding full_call
full_call-Grows s arg (quiet c) vm =
    Holds-map (GrowsQuietly vm.world) (Grows vm.world) (quiet_call s arg c vm) (λ w h. h.0)
      (quiet_call-Grows s arg c vm)
full_call-Grows s arg (return_promise idx) vm =
    charge_gas-Holds (Grows vm.world) host_call_base_gas vm (promise_return idx)
      (Grows-refl vm.world) (λ g. promise_return-Grows (record vm { gas = g }) idx)
