-- ===== src/CryptoReal.antt =====
-- crypto_real.rs: the recovery of a secp256k1 key and the check of a P-256 signature. What the crates k256
-- and p256 compute is a parameter.
pub mod LowS
mod Tests
use near_mock.Base.{
  ℕ, ◌+◌, Bool, true, false, not, ◌&&◌, ◌||◌, List, [], ◌∷◌, Option, none, some, Bytes, length,
  drop, ltb, leb, ◌==◌, if◌then◌else◌,
}
use near_mock.Base.{ℕ_eq}

-- Half of the order of the group, and 1.
abbrev pub n_half_one : Bytes
n_half_one =
    0x7F ∷ 0xFF ∷ 0xFF ∷ 0xFF ∷ 0xFF ∷ 0xFF ∷ 0xFF ∷ 0xFF ∷ 0xFF ∷ 0xFF ∷ 0xFF ∷ 0xFF ∷ 0xFF ∷ 0xFF
    ∷ 0xFF ∷ 0xFF ∷ 0x5D ∷ 0x57 ∷ 0x6E ∷ 0x73 ∷ 0x57 ∷ 0xA4 ∷ 0x50 ∷ 0x1D ∷ 0xDF ∷ 0xE9 ∷ 0x2F
    ∷ 0x46 ∷ 0x68 ∷ 0x1B ∷ 0x20 ∷ 0xA1 ∷ []

-- `>=` on arrays of bytes, which compares them from the first one on.
unfoldable pub array_geq : Bytes → Bytes → Bool
array_geq [] [] = true
array_geq [] (c ∷ cs) = false
array_geq (b ∷ bs) [] = true
array_geq (b ∷ bs) (c ∷ cs) = ltb c b || (b == c && array_geq bs cs)

unfoldable pub check_signature_values : ℕ → Bytes → Bool → Bool
unfolding array_geq
check_signature_values recid s enforce_low_s = not (enforce_low_s && array_geq s n_half_one)

pub data RecoverError : Type 0 where
  signature_length hash_length : ℕ → RecoverError
  recovery_byte malleability_flag : ℕ → RecoverError

pub data Recovered : Type 0 where
  err : RecoverError → Recovered
  ok : Option Bytes → Recovered

pub record K256 : Type 1 where
  pub Signature : Type 0
  pub from_slice : Bytes → Option Signature
  pub recover_from_prehash : Bytes → Signature → ℕ → Option Bytes

-- The key is its 65 bytes, uncompressed.
unfoldable pub ecrecover : K256 → Bytes → Bytes → ℕ → ℕ → Recovered
unfolding check_signature_values
ecrecover k256 hash sig v flag =
    if not (length sig == 64)
    then err (RecoverError.signature_length (length sig))
    else if leb 4 v
    then err (RecoverError.recovery_byte v)
    else if not (length hash == 32)
    then err (RecoverError.hash_length (length hash))
    else if not (flag == 0) && not (flag == 1)
    then err (RecoverError.malleability_flag flag)
    else if not (check_signature_values v (drop 32 sig) (not (flag == 0)))
    then ok none
    else elim (k256.from_slice sig) [
      | none ↦ ok none
      | some s ↦ ok (k256.recover_from_prehash hash s v)
    ]

pub data P256Error : Type 0 where
  invalid_signature_length invalid_public_key_length : P256Error

pub data Verified : Type 0 where
  err : P256Error → Verified
  ok : Bool → Verified

pub record P256 : Type 1 where
  pub Signature : Type 0
  pub Key : Type 0
  pub from_slice : Bytes → Option Signature
  pub from_sec1_bytes : Bytes → Option Key
  pub verify_prehash : Key → Bytes → Signature → Bool

unfoldable pub p256_verify : P256 → Bytes → Bytes → Bytes → Verified
p256_verify p256 sig message public_key =
    if not (length sig == 64)
    then Verified.err P256Error.invalid_signature_length
    else elim (p256.from_slice sig) [
      | none ↦ Verified.ok false
      | some signature ↦
          if not (length public_key == 33)
          then Verified.err P256Error.invalid_public_key_length
          else elim (p256.from_sec1_bytes public_key) [
            | none ↦ Verified.ok false
            | some vk ↦ Verified.ok (p256.verify_prehash vk message signature)
          ]
    ]
