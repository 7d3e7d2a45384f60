-- ===== src/CryptoReal/Tests.antt =====
-- crypto_real.rs: the bound itself is refused.
use near_mock.Base.{ℕ, zero, suc, [], ◌∷◌, some, Bytes, ◌≡◌, refl, arith, true, false}
use near_mock.CryptoReal.{check_signature_values, n_half_one, K256, ok, ecrecover}
use near_mock.CryptoReal.LowS.{ecrecover-low}

bound_refused : check_signature_values 0 n_half_one true ≡ false
unfolding check_signature_values
bound_refused = refl

-- A crate that takes every signature and recovers its recovery byte.
abbrev toy : K256
toy = record {
  Signature = Bytes;
  from_slice = λ sig. some sig;
  recover_from_prehash = λ hash sig v. some (v ∷ []);
}

abbrev ones : ℕ → Bytes
ones zero = []
ones (suc n) = 1 ∷ ones n

-- The second number is low, and the recovery byte is 1: the flag changes nothing.
ecrecover-low_example :
    (ecrecover toy (ones 32) (ones 64) 1 0 ≡ ok (some (1 ∷ [])))
    × (ecrecover toy (ones 32) (ones 64) 1 1 ≡ ok (some (1 ∷ [])))
ecrecover-low_example =
    ecrecover-low toy (ones 32) (ones 64) 1 refl refl (omega arith) (omega arith)
