-- ===== src/CurvePoint.antt =====
-- umbral/curve_point.py: a point of the curve. `CURVE` is the instance argument.
pub mod Defs
pub mod Arithmetic
pub mod RoundTrip
