-- ===== src/CurveScalar/Operand.antt =====
-- The operators of umbral/curve_scalar.py where the other operand is an int or a scalar.
use nucypher_kms_umbral.Prelude.{ℤ, Bool, true, Result, ok, ◌>>=◌}
use nucypher_kms_umbral.Backend.Interface.{Backend}
use nucypher_kms_umbral.Openssl.Curve.{Curve}
use nucypher_kms_umbral.CurveScalar.Defs.{CurveScalar, from_int, mul, add, sub, eq}

module _ ⦃lib : Backend⦄ where
  -- `Union[int, 'CurveScalar']`
  pub data Operand : Type 0 where
    an_int : ℤ → Operand
    a_scalar : CurveScalar → Operand

module _ ⦃lib : Backend⦄ ⦃CURVE : Curve⦄ where
  -- `if isinstance(other, int): other = CurveScalar.from_int(other)`
  unfoldable pub as_scalar : Operand → Result CurveScalar
  unfolding from_int
  as_scalar (an_int num) = from_int num true
  as_scalar (a_scalar other) = ok other

  -- `__mul__`, `__add__`, `__sub__` and `__eq__`
  unfoldable pub mul_operand : CurveScalar → Operand → Result CurveScalar
  unfolding as_scalar mul
  mul_operand self operand = do other ← as_scalar operand; mul self other

  unfoldable pub add_operand : CurveScalar → Operand → Result CurveScalar
  unfolding as_scalar add
  add_operand self operand = do other ← as_scalar operand; add self other

  unfoldable pub sub_operand : CurveScalar → Operand → Result CurveScalar
  unfolding as_scalar sub
  sub_operand self operand = do other ← as_scalar operand; sub self other

  unfoldable pub eq_operand : CurveScalar → Operand → Result Bool
  unfolding as_scalar eq
  eq_operand self operand = do other ← as_scalar operand; ok (eq self other)
