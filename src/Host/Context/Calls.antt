-- ===== src/Host/Context/Calls.antt =====
-- hosts.rs: these functions keep what Host/Promises/Grows says.
use near_mock.Base.{ℕ, ◌≡◌, refl, ap, Bytes}
use near_mock.Base.{bytes_Key, ℕ_eq}
use near_mock.Base.Map.{lookup, insert}
use near_mock.Base.Utf8.{from_utf8_lossy}
use near_mock.State.{MockState}
use near_mock.Gas.Staking.{RunCfg}
use near_mock.Promise.{World}
use near_mock.Host.{Vm, done, slice, with_st, write_reg}
use near_mock.Host.Program.Rules.{Holds, charge_gas-Holds, on_slice-Holds, write_reg-Holds}
use near_mock.Host.Promises.Grows.{GrowsQuietly, GrowsQuietly-refl}
use near_mock.Host.Context.{set_register, put_register, put_u128, log_utf8, log_line, panic_utf8}

module _ (vm : Vm) where
  abbrev Quietly : World → Type 0
  Quietly = GrowsQuietly vm.world

  same : Quietly vm.world
  same = GrowsQuietly-refl vm.world

  -- A change of registers only.
  pub registers_only :
      (st : MockState)
      → st.storage ≡ vm.world.st.storage
      → GrowsQuietly vm.world (with_st vm st).world
  registers_only st e = (((λ k out y. ap (lookup k) e), refl, (λ j b e. (b, e, refl))), (λ p. p))

  pub put_register-Grows :
      (rid : ℕ) (v : Bytes) → Holds (GrowsQuietly vm.world) (put_register rid v vm)
  put_register-Grows rid v =
      charge_gas-Holds Quietly _ vm (λ vm1. done 0 (set_register rid v vm1)) same
        (λ g.
          registers_only (record vm.world.st { registers = insert rid v vm.world.st.registers })
            refl)

  pub put_u128-Grows : (ptr amt : ℕ) → Holds (GrowsQuietly vm.world) (put_u128 ptr amt vm)
  put_u128-Grows ptr amt =
      on_slice-Holds Quietly (slice ptr 16 vm.memory) vm (done 0 vm)
        (λ old. done 0 (record vm { memory = _ })) same same (λ v. same)

  pub write_only-Grows :
      (rid : ℕ) (v : Bytes) → Holds (GrowsQuietly vm.world) (write_reg rid v vm (done 0))
  write_only-Grows rid v = write_reg-Holds Quietly rid v vm (done 0) same registers_only

  pub log_utf8-Grows :
      (cfg : RunCfg) (len ptr : ℕ) → Holds (GrowsQuietly vm.world) (log_utf8 cfg len ptr vm)
  unfolding log_utf8
  log_utf8-Grows cfg len ptr = charge_gas-Holds Quietly _ vm _ same (λ g.
      on_slice-Holds Quietly (slice ptr len vm.memory) (record vm { gas = g })
        (done 0 (record vm { gas = g }))
        (λ v. done 0 (log_line (from_utf8_lossy v) (record vm { gas = g }))) same same
        (λ v. (((λ k out y. refl), refl, (λ j b e. (b, e, refl))), (λ p. p))))

  pub panic_utf8-Grows : (len ptr : ℕ) → Holds (GrowsQuietly vm.world) (panic_utf8 len ptr vm)
  unfolding panic_utf8
  panic_utf8-Grows len ptr =
      on_slice-Holds Quietly (slice ptr len vm.memory) vm _ _ same same (λ v. same)
