-- ===== src/KeyFrag.antt =====
-- umbral/key_frag.py: fragments of a re-encryption key, their proofs, and the base they come from.
pub mod Id
pub mod Defs
pub mod Generate
pub mod Drawn
pub mod Polynomial
pub mod Accepted
pub mod Checked
pub mod RoundTrip
