-- ===== src/Keys.antt =====
-- umbral/keys.py: secret keys, public keys and the factory of keys by label.
pub mod Defs
pub mod Pairs
pub mod RoundTrip
pub mod Obtained
