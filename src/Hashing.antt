-- ===== src/Hashing.antt =====
-- umbral/hashing.py: the hashes of the scheme with their domain tags, the message that a key
-- fragment's signature covers, and the hash onto the curve.
pub mod Defs
pub mod ToPoint
pub mod Total
pub mod Message
pub mod FirstPoint
