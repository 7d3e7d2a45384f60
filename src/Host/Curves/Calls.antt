-- ===== src/Host/Curves/Calls.antt =====
-- hosts.rs: these functions keep what Host/Promises/Grows says.
use near_mock.Base.{ℕ, ◌%◌, List, Option, none, some, Bytes}
use near_mock.Gas.{GasSchedule}
use near_mock.Host.{Vm, Out, done, trap, charge_gas}
use near_mock.Host.Program.Rules.{Holds, charge_gas-Holds, write_reg-Holds}
use near_mock.Host.Promises.Grows.{GrowsQuietly, GrowsQuietly-refl}
use near_mock.Host.Context.Calls.{registers_only}
use near_mock.Host.Actions.Calls.{checked-Grows}
use near_mock.Bls.{Outcome, host_error, refused, accepted}
use near_mock.Bls.Pairing.{BlstAll, Kind, eval, pairing_check}
use near_mock.Bn254.{Bn, Decoded, split_elements, g1_sum, g1_multiexp}
use near_mock.CryptoReal.{K256, P256, Recovered, ecrecover, Verified, p256_verify}
use near_mock.Host.Curves.{
  bls_result, bls12381, code_result, bls12381_pairing_check, good, with_elements, alt_bn128_g1_sum,
  alt_bn128_g1_multiexp, alt_bn128_pairing_check, get_range, got, p256_result, p256_verify_host,
  recover_result, ecrecover_host,
}

register-Grows :
    (rid r : ℕ) (v : Bytes) (vm : Vm)
    → Holds (GrowsQuietly vm.world) (near_mock.Host.write_reg rid v vm (done r))
register-Grows rid r v vm =
    write_reg-Holds (GrowsQuietly vm.world) rid v vm (done r) (GrowsQuietly-refl vm.world)
      (registers_only vm)

bls_result-Grows :
    (o : Outcome Bytes) (rid : ℕ) (vm : Vm) → Holds (GrowsQuietly vm.world) (bls_result o rid vm)
unfolding bls_result
bls_result-Grows (host_error n size) rid vm = GrowsQuietly-refl vm.world
bls_result-Grows refused rid vm = GrowsQuietly-refl vm.world
bls_result-Grows (accepted out) rid vm = register-Grows rid 0 out vm

pub bls12381-Grows :
    (blst : BlstAll) (kind : Kind) (len ptr rid : ℕ) (vm : Vm)
    → Holds (GrowsQuietly vm.world) (bls12381 blst kind len ptr rid vm)
unfolding bls12381
bls12381-Grows blst kind len ptr rid vm =
    checked-Grows vm len ptr _ (λ v. bls_result-Grows (eval blst kind v) rid vm)

code_result-Grows : (o : Outcome ℕ) (vm : Vm) → Holds (GrowsQuietly vm.world) (code_result o vm)
unfolding code_result
code_result-Grows (host_error n size) vm = GrowsQuietly-refl vm.world
code_result-Grows refused vm = GrowsQuietly-refl vm.world
code_result-Grows (accepted code) vm = GrowsQuietly-refl vm.world

pub bls12381_pairing_check-Grows :
    (blst : BlstAll) (len ptr : ℕ) (vm : Vm)
    → Holds (GrowsQuietly vm.world) (bls12381_pairing_check blst len ptr vm)
unfolding bls12381_pairing_check
bls12381_pairing_check-Grows blst len ptr vm =
    checked-Grows vm len ptr _ (λ v. code_result-Grows (pairing_check blst.pairing v) vm)

good-Grows {ℓ} :
    {A : Type ℓ} (r : Decoded A) (vm : Vm) (next : A → Out)
    → ((a : A) → Holds (GrowsQuietly vm.world) (next a))
    → Holds (GrowsQuietly vm.world) (good r vm next)
unfolding good
good-Grows (Decoded.err e) vm next h = GrowsQuietly-refl vm.world
good-Grows (Decoded.ok a) vm next h = h a

module _ (bn : Bn) (gas : GasSchedule) where
  with_elements-Grows :
      (size base element len ptr : ℕ) (vm : Vm) (next : List Bytes → Vm → Out)
      → ((elems : List Bytes) (g : ℕ)
          → Holds (GrowsQuietly vm.world) (next elems (record vm { gas = g })))
      → Holds (GrowsQuietly vm.world) (with_elements bn gas size base element len ptr vm next)
  unfolding with_elements
  with_elements-Grows size base element len ptr vm next h = checked-Grows vm len ptr _ (λ v.
      charge_gas-Holds (GrowsQuietly vm.world) _ vm _ (GrowsQuietly-refl vm.world)
        (λ g. good-Grows (split_elements size v) (record vm { gas = g }) _ (λ elems. h elems g)))

  pub alt_bn128_g1_sum-Grows :
      (len ptr rid : ℕ) (vm : Vm)
      → Holds (GrowsQuietly vm.world) (alt_bn128_g1_sum bn gas len ptr rid vm)
  unfolding alt_bn128_g1_sum
  alt_bn128_g1_sum-Grows len ptr rid vm = with_elements-Grows _ _ _ len ptr vm _ (λ elems g.
      good-Grows (g1_sum bn elems) (record vm { gas = g }) _
        (λ out. register-Grows rid 0 out (record vm { gas = g })))

  pub alt_bn128_g1_multiexp-Grows :
      (len ptr rid : ℕ) (vm : Vm)
      → Holds (GrowsQuietly vm.world) (alt_bn128_g1_multiexp bn gas len ptr rid vm)
  unfolding alt_bn128_g1_multiexp
  alt_bn128_g1_multiexp-Grows len ptr rid vm = with_elements-Grows _ _ _ len ptr vm _ (λ elems g.
      good-Grows (g1_multiexp bn elems) (record vm { gas = g }) _
        (λ out. register-Grows rid 0 out (record vm { gas = g })))

  pub alt_bn128_pairing_check-Grows :
      (len ptr : ℕ) (vm : Vm)
      → Holds (GrowsQuietly vm.world) (alt_bn128_pairing_check bn gas len ptr vm)
  unfolding alt_bn128_pairing_check
  alt_bn128_pairing_check-Grows len ptr vm = with_elements-Grows _ _ _ len ptr vm _ (λ elems g.
      good-Grows (near_mock.Bn254.pairing_check bn elems) (record vm { gas = g }) _
        (λ holds. GrowsQuietly-refl vm.world))

got-Grows :
    (o : Option Bytes) (vm : Vm) (next : Bytes → Out)
    → ((v : Bytes) → Holds (GrowsQuietly vm.world) (next v))
    → Holds (GrowsQuietly vm.world) (got o vm next)
unfolding got
got-Grows none vm next h = GrowsQuietly-refl vm.world
got-Grows (some v) vm next h = h v

p256_result-Grows : (o : Verified) (vm : Vm) → Holds (GrowsQuietly vm.world) (p256_result o vm)
unfolding p256_result
p256_result-Grows (Verified.err e) vm = GrowsQuietly-refl vm.world
p256_result-Grows (Verified.ok b) vm = GrowsQuietly-refl vm.world

pub p256_verify_host-Grows :
    (p256 : P256) (gas : GasSchedule) (sl sp ml mp kl kp : ℕ) (vm : Vm)
    → Holds (GrowsQuietly vm.world) (p256_verify_host p256 gas sl sp ml mp kl kp vm)
unfolding p256_verify_host
p256_verify_host-Grows p256 gas sl sp ml mp kl kp vm =
    charge_gas-Holds (GrowsQuietly vm.world) _ vm _ (GrowsQuietly-refl vm.world) (λ g.
      let vm1 = record vm { gas = g } in
      got-Grows (get_range sl sp vm.memory) vm1 _ (λ sig.
        got-Grows (get_range ml mp vm.memory) vm1 _ (λ msg.
          got-Grows (get_range kl kp vm.memory) vm1 _
            (λ pk. p256_result-Grows (p256_verify p256 sig msg pk) vm1))))

recover_result-Grows :
    (o : Recovered) (rid : ℕ) (vm : Vm) → Holds (GrowsQuietly vm.world) (recover_result o rid vm)
unfolding recover_result
recover_result-Grows (Recovered.err e) rid vm = GrowsQuietly-refl vm.world
recover_result-Grows (Recovered.ok none) rid vm = GrowsQuietly-refl vm.world
recover_result-Grows (Recovered.ok (some pk)) rid vm = register-Grows rid 1 pk vm

pub ecrecover_host-Grows :
    (k256 : K256) (gas : GasSchedule) (hl hp sl sp v flag rid : ℕ) (vm : Vm)
    → Holds (GrowsQuietly vm.world) (ecrecover_host k256 gas hl hp sl sp v flag rid vm)
unfolding ecrecover_host
ecrecover_host-Grows k256 gas hl hp sl sp v flag rid vm =
    charge_gas-Holds (GrowsQuietly vm.world) _ vm _ (GrowsQuietly-refl vm.world) (λ g.
      let vm1 = record vm { gas = g } in
      got-Grows (get_range hl hp vm.memory) vm1 _ (λ hash.
        got-Grows (get_range sl sp vm.memory) vm1 _
          (λ sig. recover_result-Grows (ecrecover k256 hash sig v (flag % 2)) rid vm1)))
