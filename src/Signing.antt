-- ===== src/Signing.antt =====
-- umbral/signing.py: signing with a normalized `s`, and verification.
pub mod Defs
pub mod Accepted
pub mod RoundTrip
pub mod Canonical
