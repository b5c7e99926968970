-- ===== src/CapsuleFrag.antt =====
-- umbral/capsule_frag.py: re-encrypted capsule fragments, their proofs and verification.
pub mod Defs
pub mod Accepted
pub mod Checked
pub mod RoundTrip
