-- ===== src/Scheme.antt =====
-- The mathematics that the scheme of umbral/capsule.py and umbral/key_frag.py rests on.
pub mod Lagrange
pub mod AtZero
