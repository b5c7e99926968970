-- ===== src/Dem.antt =====
-- umbral/dem.py: key derivation, and the symmetric cipher with its nonce in front.
pub mod Defs
pub mod RoundTrip
