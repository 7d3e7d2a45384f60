-- ===== src/Host/Crypto/Calls.antt =====
-- hosts.rs: these functions keep what Host/Promises/Grows says.
use near_mock.Base.{ℕ, Bool, true, false, Bytes, ◌==◌}
use near_mock.Base.{bytes_Key, ℕ_eq}
use near_mock.Host.{Vm, done, slice}
use near_mock.Host.Program.Rules.{Holds, charge_gas-Holds, on_slice-Holds, write_reg-Holds}
use near_mock.Host.Promises.Grows.{GrowsQuietly, GrowsQuietly-refl}
use near_mock.Host.Context.Calls.{registers_only}
use near_mock.Host.Crypto.{digest_to_register, sha256, keccak256, ed25519_verify}

pub digest_to_register-Grows :
    (digest : Bytes → Bytes) (len ptr rid : ℕ) (vm : Vm)
    → Holds (GrowsQuietly vm.world) (digest_to_register digest len ptr rid vm)
digest_to_register-Grows digest len ptr rid vm =
    on_slice-Holds (GrowsQuietly vm.world) (slice ptr len vm.memory) vm (done 0 vm) _
      (GrowsQuietly-refl vm.world) (GrowsQuietly-refl vm.world)
      (λ v.
        write_reg-Holds (GrowsQuietly vm.world) rid (digest v) vm (done 0)
          (GrowsQuietly-refl vm.world) (registers_only vm))

pub sha256-Grows :
    (digest : Bytes → Bytes) (len ptr rid : ℕ) (vm : Vm)
    → Holds (GrowsQuietly vm.world) (sha256 digest len ptr rid vm)
unfolding sha256
sha256-Grows digest len ptr rid vm =
    charge_gas-Holds (GrowsQuietly vm.world) _ vm (digest_to_register digest len ptr rid)
      (GrowsQuietly-refl vm.world)
      (λ g. digest_to_register-Grows digest len ptr rid (record vm { gas = g }))

pub keccak256-Grows :
    (digest : Bytes → Bytes) (len ptr rid : ℕ) (vm : Vm)
    → Holds (GrowsQuietly vm.world) (keccak256 digest len ptr rid vm)
unfolding keccak256
keccak256-Grows digest len ptr rid vm =
    charge_gas-Holds (GrowsQuietly vm.world) _ vm (digest_to_register digest len ptr rid)
      (GrowsQuietly-refl vm.world)
      (λ g. digest_to_register-Grows digest len ptr rid (record vm { gas = g }))

pub ed25519_verify-Grows :
    (verify : Bytes → Bytes → Bytes → Bool) (sl sp ml mp kl kp : ℕ) (vm : Vm)
    → Holds (GrowsQuietly vm.world) (ed25519_verify verify sl sp ml mp kl kp vm)
unfolding ed25519_verify
ed25519_verify-Grows verify sl sp ml mp kl kp vm = go (kl == 32) (sl == 64) _
  where
    go :
        (a b : Bool) (n : ℕ)
        → Holds
            (GrowsQuietly vm.world)
            (elim a [ false ↦ done 0 vm | true ↦ elim b [ false ↦ done 0 vm | true ↦ done n vm ] ])
    go false b n = GrowsQuietly-refl vm.world
    go true false n = GrowsQuietly-refl vm.world
    go true true n = GrowsQuietly-refl vm.world
