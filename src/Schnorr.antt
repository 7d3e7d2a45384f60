-- ===== src/Schnorr.antt =====
-- near_mock/schnorr.rs: BIP-340 verification over secp256k1, written out on 64-bit limbs.
pub mod Limbs
pub mod Field
pub mod Product
pub mod Power
pub mod Octets
pub mod Curve
pub mod Sha256
pub mod Verify
mod Tests
