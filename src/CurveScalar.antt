-- ===== src/CurveScalar.antt =====
-- umbral/curve_scalar.py: a bignum modulo the order of the curve. `CURVE` is the instance argument.
-- `Operand` has the operators where Python takes an `int` beside a scalar.
pub mod Defs
pub mod Arithmetic
pub mod RoundTrip
pub mod Operand
pub mod Range
