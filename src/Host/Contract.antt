-- ===== src/Host/Contract.antt =====
-- A contract that calls the modelled host functions, `promise_yield_resume` aside, which runs the
-- callback of another contract inside the call and is modelled on its own in Host/Promises/Resume: the
-- functions on storage and registers, those that schedule promises and add actions, those on the
-- context, the block, logs, digests and signatures.
pub mod Grown
pub mod Modules
use near_mock.Base.{ℕ, List, Option, none, some, Bytes, Bool}
use near_mock.Gas.Staking.{RunCfg}
use near_mock.Promise.{World, PAction}
use near_mock.Host.{Vm, Out, host_fn}
use near_mock.Host.Guest.{HostCall, perform}
use near_mock.Host.Program.{Program}
use near_mock.Host.Promises.{
  promise_batch_create, promise_batch_then, promise_batch_action_function_call,
  promise_batch_action_transfer, promise_create, promise_then, promise_and, promise_results_count,
  promise_result, promise_return, promise_yield_create,
}
use near_mock.Host.Actions.{
  promise_batch_action_function_call_weight, promise_batch_action_stake,
  promise_batch_action_add_key_with_full_access, promise_batch_action_add_key_with_function_call,
  promise_batch_action_delete_key, promise_batch_action_delete_account,
  promise_batch_action_transfer_to_gas_key, promise_batch_action_add_gas_key_with_full_access,
  promise_batch_action_add_gas_key_with_function_call, promise_batch_action_deploy_global_contract,
  promise_batch_action_deploy_global_contract_by_account_id,
  promise_batch_action_use_global_contract, promise_batch_action_use_global_contract_by_account_id,
}
use near_mock.Host.Context.{
  Env, current_account_id, signer_account_id, predecessor_account_id, account_balance,
  account_locked_balance, attached_deposit, used_gas, prepaid_gas, block_timestamp, block_index,
  epoch_height, storage_usage, current_contract_code, chain_id, log_utf8, panic_utf8, abort,
  removed_host,
}
use near_mock.Host.Crypto.{
  sha256, keccak256, keccak512, ripemd160, schnorr_verify_bip340, ed25519_verify,
}
use near_mock.Host.Curves.{
  bls12381, bls12381_pairing_check, alt_bn128_g1_sum, alt_bn128_g1_multiexp,
  alt_bn128_pairing_check, p256_verify_host, ecrecover_host,
}
use near_mock.Host.Block.{
  signer_account_pk, random_seed, validator_stake, validator_total_stake, log_utf16,
}
use near_mock.Base.Map.{Map}
use near_mock.Bls.Pairing.{BlstAll, Kind}
use near_mock.Bn254.{Bn}
use near_mock.CryptoReal.{K256, P256}

-- What third-party crates compute.
pub record Crates : Type 1 where
  pub sha256_digest : Bytes → Bytes
  pub keccak256_digest : Bytes → Bytes
  pub keccak512_digest : Bytes → Bytes
  pub ripemd160_digest : Bytes → Bytes
  pub ed25519_verify_impl : Bytes → Bytes → Bytes → Bool
  pub blst : BlstAll
  pub bn : Bn
  pub k256 : K256
  pub p256 : P256
  pub json : Bytes → Option (Map Bytes Bytes)

pub data PromiseCall : Type 0 where
  batch_create : (acct_len acct_ptr : ℕ) → PromiseCall
  batch_then : (idx acct_len acct_ptr : ℕ) → PromiseCall
  call_action : (idx ml mp al ap dep_ptr gas : ℕ) → PromiseCall
  transfer_action : (idx amt_ptr : ℕ) → PromiseCall
  create : (acl acp ml mp al ap gas : ℕ) → PromiseCall
  then_after : (idx acl acp ml mp al ap gas : ℕ) → PromiseCall
  join : (ptr count : ℕ) → PromiseCall
  results_count : PromiseCall
  result : (idx rid : ℕ) → PromiseCall
  yield_create : (ml mp al ap gas reg : ℕ) → PromiseCall

unfoldable pub promise_call : PromiseCall → Vm → Out
promise_call (batch_create l p) vm = promise_batch_create l p vm
promise_call (batch_then idx l p) vm = promise_batch_then idx l p vm
promise_call (call_action idx ml mp al ap d g) vm =
    promise_batch_action_function_call idx ml mp al ap d g vm
promise_call (transfer_action idx p) vm = promise_batch_action_transfer idx p vm
promise_call (create acl acp ml mp al ap g) vm = promise_create acl acp ml mp al ap g vm
promise_call (then_after idx acl acp ml mp al ap g) vm = promise_then idx acl acp ml mp al ap g vm
promise_call (join ptr count) vm = promise_and ptr count vm
promise_call results_count vm = promise_results_count vm
promise_call (result idx rid) vm = promise_result idx rid vm
promise_call (yield_create ml mp al ap g reg) vm = promise_yield_create ml mp al ap g reg vm

pub data ActionCall : Type 0 where
  weighted_call : (idx ml mp al ap dep_ptr gas : ℕ) → ActionCall
  stake : (idx amt_ptr pk_len pk_ptr : ℕ) → ActionCall
  add_key_full add_key_call delete_key add_gas_key_full add_gas_key_call :
      (idx pk_len pk_ptr : ℕ) → ActionCall
  delete_account : (idx len ptr : ℕ) → ActionCall
  gas_key_transfer : (idx key_len key_ptr amt_ptr : ℕ) → ActionCall
  deploy_global deploy_global_by use_global use_global_by : (idx len ptr : ℕ) → ActionCall

unfoldable pub action_call : ActionCall → Vm → Out
action_call (weighted_call idx ml mp al ap d g) vm =
    promise_batch_action_function_call_weight idx ml mp al ap d g vm
action_call (stake idx a l p) vm = promise_batch_action_stake idx a l p vm
action_call (add_key_full idx l p) vm = promise_batch_action_add_key_with_full_access idx l p vm
action_call (add_key_call idx l p) vm = promise_batch_action_add_key_with_function_call idx l p vm
action_call (delete_key idx l p) vm = promise_batch_action_delete_key idx l p vm
action_call (add_gas_key_full idx l p) vm =
    promise_batch_action_add_gas_key_with_full_access idx l p vm
action_call (add_gas_key_call idx l p) vm =
    promise_batch_action_add_gas_key_with_function_call idx l p vm
action_call (delete_account idx l p) vm = promise_batch_action_delete_account idx l p vm
action_call (gas_key_transfer idx l p a) vm = promise_batch_action_transfer_to_gas_key idx l p a vm
action_call (deploy_global idx l p) vm = promise_batch_action_deploy_global_contract idx l p vm
action_call (deploy_global_by idx l p) vm =
    promise_batch_action_deploy_global_contract_by_account_id idx l p vm
action_call (use_global idx l p) vm = promise_batch_action_use_global_contract idx l p vm
action_call (use_global_by idx l p) vm =
    promise_batch_action_use_global_contract_by_account_id idx l p vm

pub data ContextCall : Type 0 where
  account_id signer_id predecessor_id contract_code chain : (rid : ℕ) → ContextCall
  balance locked_balance deposit : (ptr : ℕ) → ContextCall
  gas_used gas_prepaid timestamp height epoch usage aborting removed : ContextCall
  log panicking : (len ptr : ℕ) → ContextCall

unfoldable pub context_call : RunCfg → Env → ContextCall → Vm → Out
context_call cfg env (account_id rid) vm = current_account_id rid vm
context_call cfg env (signer_id rid) vm = signer_account_id env rid vm
context_call cfg env (predecessor_id rid) vm = predecessor_account_id rid vm
context_call cfg env (contract_code rid) vm = current_contract_code rid vm
context_call cfg env (chain rid) vm = chain_id env rid vm
context_call cfg env (balance ptr) vm = account_balance cfg ptr vm
context_call cfg env (locked_balance ptr) vm = account_locked_balance cfg ptr vm
context_call cfg env (deposit ptr) vm = attached_deposit env ptr vm
context_call cfg env gas_used vm = used_gas env vm
context_call cfg env gas_prepaid vm = prepaid_gas env vm
context_call cfg env timestamp vm = block_timestamp env vm
context_call cfg env height vm = block_index env vm
context_call cfg env epoch vm = epoch_height env vm
context_call cfg env usage vm = storage_usage vm
context_call cfg env aborting vm = abort vm
context_call cfg env removed vm = removed_host vm
context_call cfg env (log len ptr) vm = log_utf8 cfg len ptr vm
context_call cfg env (panicking len ptr) vm = panic_utf8 len ptr vm

pub data CryptoCall : Type 0 where
  hash_sha256 hash_keccak256 hash_keccak512 hash_ripemd160 : (len ptr rid : ℕ) → CryptoCall
  schnorr : (pk_ptr sig_ptr msg_ptr msg_len : ℕ) → CryptoCall
  ed25519 : (sl sp ml mp kl kp : ℕ) → CryptoCall

unfoldable pub crypto_call : Crates → CryptoCall → Vm → Out
crypto_call crates (hash_sha256 l p rid) vm = sha256 crates.sha256_digest l p rid vm
crypto_call crates (hash_keccak256 l p rid) vm = keccak256 crates.keccak256_digest l p rid vm
crypto_call crates (hash_keccak512 l p rid) vm = keccak512 crates.keccak512_digest l p rid vm
crypto_call crates (hash_ripemd160 l p rid) vm = ripemd160 crates.ripemd160_digest l p rid vm
crypto_call crates (schnorr pk sig msg len) vm = schnorr_verify_bip340 pk sig msg len vm
crypto_call crates (ed25519 sl sp ml mp kl kp) vm =
    ed25519_verify crates.ed25519_verify_impl sl sp ml mp kl kp vm

pub data CurveCall : Type 0 where
  bls : Kind → (len ptr rid : ℕ) → CurveCall
  bls_pairing : (len ptr : ℕ) → CurveCall
  bn_sum bn_multiexp : (len ptr rid : ℕ) → CurveCall
  bn_pairing : (len ptr : ℕ) → CurveCall
  p256 : (sl sp ml mp kl kp : ℕ) → CurveCall
  recover : (hl hp sl sp v flag rid : ℕ) → CurveCall

unfoldable pub curve_call : RunCfg → Crates → CurveCall → Vm → Out
curve_call cfg crates (bls kind l p rid) vm = bls12381 crates.blst kind l p rid vm
curve_call cfg crates (bls_pairing l p) vm = bls12381_pairing_check crates.blst l p vm
curve_call cfg crates (bn_sum l p rid) vm = alt_bn128_g1_sum crates.bn cfg.gas l p rid vm
curve_call cfg crates (bn_multiexp l p rid) vm = alt_bn128_g1_multiexp crates.bn cfg.gas l p rid vm
curve_call cfg crates (bn_pairing l p) vm = alt_bn128_pairing_check crates.bn cfg.gas l p vm
curve_call cfg crates (p256 sl sp ml mp kl kp) vm =
    p256_verify_host crates.p256 cfg.gas sl sp ml mp kl kp vm
curve_call cfg crates (recover hl hp sl sp v flag rid) vm =
    ecrecover_host crates.k256 cfg.gas hl hp sl sp v flag rid vm

-- What the functions take besides their arguments.
pub record Setup : Type 1 where
  pub cfg : RunCfg
  pub env : Env
  pub crates : Crates

pub data BlockCall : Type 0 where
  signer_key seed : (rid : ℕ) → BlockCall
  stake_of : (len ptr stake_ptr : ℕ) → BlockCall
  total_stake : (ptr : ℕ) → BlockCall
  log_wide : (len ptr : ℕ) → BlockCall

unfoldable pub block_call : Setup → BlockCall → Vm → Out
block_call s (signer_key rid) vm = signer_account_pk rid vm
block_call s (seed rid) vm = random_seed s.env rid vm
block_call s (stake_of l p out) vm = validator_stake s.crates.json s.cfg.gas l p out vm
block_call s (total_stake p) vm = validator_total_stake s.crates.json s.cfg.gas p vm
block_call s (log_wide l p) vm = log_utf16 s.cfg.gas l p vm

-- All calls but `promise_return`.
pub data QuietCall : Type 0 where
  basic : HostCall → QuietCall
  promise : PromiseCall → QuietCall
  action : ActionCall → QuietCall
  context : ContextCall → QuietCall
  crypto : CryptoCall → QuietCall
  curve : CurveCall → QuietCall
  block : BlockCall → QuietCall

pub data Call : Type 0 where
  quiet : QuietCall → Call
  return_promise : (idx : ℕ) → Call

unfoldable pub quiet_body : Setup → Bytes → QuietCall → Vm → Out
unfolding promise_call action_call context_call crypto_call curve_call block_call perform
quiet_body s arg (basic c) vm = perform s.cfg arg c vm
quiet_body s arg (promise c) vm = promise_call c vm
quiet_body s arg (action c) vm = action_call c vm
quiet_body s arg (context c) vm = context_call s.cfg s.env c vm
quiet_body s arg (crypto c) vm = crypto_call s.crates c vm
quiet_body s arg (curve c) vm = curve_call s.cfg s.crates c vm
quiet_body s arg (block c) vm = block_call s c vm

unfoldable pub quiet_call : Setup → Bytes → QuietCall → Vm → Out
unfolding quiet_body
quiet_call s arg c vm = host_fn (quiet_body s arg c) vm

unfoldable pub full_call : Setup → Bytes → Call → Vm → Out
unfolding quiet_call
full_call s arg (quiet c) vm = quiet_call s arg c vm
full_call s arg (return_promise idx) vm = host_fn (promise_return idx) vm
