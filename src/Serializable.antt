-- ===== src/Serializable.antt =====
-- umbral/serializable.py: constant-size serialization, and `_split`.
pub mod Defs
pub mod RoundTrip
pub mod Canonical
