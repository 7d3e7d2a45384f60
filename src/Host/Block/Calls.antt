-- ===== src/Host/Block/Calls.antt =====
-- hosts.rs: these functions keep what Host/Promises/Grows says.
use near_mock.Base.{ℕ, refl, Bytes, Option, length, ◌+◌, ◌*◌, ◌/◌}
use near_mock.Base.Map.{Map}
use near_mock.Gas.{GasSchedule}
use near_mock.Bls.{chunks_exact}
use near_mock.Host.{Vm, done, slice}
use near_mock.Host.Program.Rules.{Holds, charge_gas-Holds, on_slice-Holds, read_str-Holds}
use near_mock.Host.Promises.Grows.{GrowsQuietly, GrowsQuietly-refl}
use near_mock.Host.Context.{Env, register_fee, log_line}
use near_mock.Host.Context.Calls.{put_register-Grows, write_only-Grows}
use near_mock.Host.Block.{
  signer_key, signer_account_pk, seed_text, random_seed, put_amount, stake_of, validator_stake,
  total_stake, validator_total_stake, utf16_text, units, log_utf16,
}
use near_mock.Base.{none}

pub signer_account_pk-Grows :
    (vm : Vm) (rid : ℕ) → Holds (GrowsQuietly vm.world) (signer_account_pk rid vm)
unfolding signer_account_pk
signer_account_pk-Grows vm rid = put_register-Grows vm rid signer_key

pub random_seed-Grows :
    (vm : Vm) (env : Env) (rid : ℕ) → Holds (GrowsQuietly vm.world) (random_seed env rid vm)
unfolding random_seed
random_seed-Grows vm env rid =
    charge_gas-Holds (GrowsQuietly vm.world) (register_fee 32) vm _ (GrowsQuietly-refl vm.world)
      (λ g. write_only-Grows (record vm { gas = g }) rid (seed_text env))

put_amount-Grows : (vm : Vm) (ptr amt : ℕ) → Holds (GrowsQuietly vm.world) (put_amount ptr amt vm)
put_amount-Grows vm ptr amt =
    let same = GrowsQuietly-refl vm.world in
    on_slice-Holds (GrowsQuietly vm.world) (slice ptr 16 vm.memory) vm _
      (λ old. done 0 (record vm { memory = _ })) same same (λ v. same)

module _ (json : Bytes → Option (Map Bytes Bytes)) (vm : Vm) where
  pub validator_stake-Grows :
      (gas : GasSchedule) (len ptr stake_ptr : ℕ)
      → Holds (GrowsQuietly vm.world) (validator_stake json gas len ptr stake_ptr vm)
  unfolding validator_stake
  validator_stake-Grows gas len ptr stake_ptr =
      charge_gas-Holds (GrowsQuietly vm.world) gas.validator_stake_base vm _
        (GrowsQuietly-refl vm.world)
        (λ g.
          read_str-Holds (GrowsQuietly vm.world) len ptr (record vm { gas = g }) _
            (GrowsQuietly-refl vm.world)
            (λ account.
              put_amount-Grows (record vm { gas = g }) stake_ptr
                (stake_of json account vm.world.st.storage)))

  pub validator_total_stake-Grows :
      (gas : GasSchedule) (ptr : ℕ)
      → Holds (GrowsQuietly vm.world) (validator_total_stake json gas ptr vm)
  unfolding validator_total_stake
  validator_total_stake-Grows gas ptr =
      charge_gas-Holds (GrowsQuietly vm.world) gas.validator_total_stake_base vm _
        (GrowsQuietly-refl vm.world)
        (λ g. put_amount-Grows (record vm { gas = g }) ptr (total_stake json vm.world.st.storage))

pub log_utf16-Grows :
    (vm : Vm) (gas : GasSchedule) (len ptr : ℕ)
    → Holds (GrowsQuietly vm.world) (log_utf16 gas len ptr vm)
unfolding log_utf16
log_utf16-Grows vm gas len ptr =
    charge_gas-Holds (GrowsQuietly vm.world) (gas.log_base + gas.log_byte * len) vm _
      (GrowsQuietly-refl vm.world)
      (λ g.
        on_slice-Holds (GrowsQuietly vm.world) (slice ptr len vm.memory) (record vm { gas = g })
          (done 0 (record vm { gas = g }))
          (λ v. done 0 (
            log_line (utf16_text none (units (chunks_exact (length v / 2) 2 v)))
              (record vm { gas = g })))
          (GrowsQuietly-refl vm.world) (GrowsQuietly-refl vm.world)
          (λ v. (((λ k out y. refl), refl, (λ j b e. (b, e, refl))), (λ p. p))))
