-- ===== src/CurvePoint/Defs.antt =====
-- The class `CurvePoint` of umbral/curve_point.py.
use nucypher_kms_umbral.Prelude.{ℕ, ℤ, ◌+◌, Bool, Result, ok, ◌>>=◌}
use nucypher_kms_umbral.Prelude.Bytes.{Bytes}
use nucypher_kms_umbral.Backend.Interface.{Backend}
use nucypher_kms_umbral.Backend.Random.{Random, lift, ◌>>=◌ as ◌>>=ᵣ◌}
use nucypher_kms_umbral.Openssl.Curve.{Curve}
use nucypher_kms_umbral.Openssl.Point.{
  point_to_affine_coords, point_from_bytes, point_to_bytes_compressed, point_eq, point_mul_bn,
  point_add, point_neg,
}
use nucypher_kms_umbral.CurveScalar.Defs as CurveScalar
use nucypher_kms_umbral.CurveScalar.Defs.{CurveScalar}
use nucypher_kms_umbral.Serializable.Defs.{Serial}

module _ ⦃lib : Backend⦄ where
  pub record CurvePoint : Type 0 where
    pub backend_point : lib.Point

  -- `CurvePoint(e)` for a point that may have failed.
  unfoldable pub wrap : Result lib.Point → Result CurvePoint
  wrap m = do point ← m; ok (record { backend_point = point })

module _ ⦃lib : Backend⦄ ⦃CURVE : Curve⦄ where
  unfoldable pub generator : CurvePoint
  generator = record { backend_point = CURVE.point_generator }

  unfoldable pub mul : CurvePoint → CurveScalar → Result CurvePoint
  unfolding point_mul_bn wrap
  mul self other = wrap (point_mul_bn CURVE self.backend_point other.backend_bignum)

  unfoldable pub add : CurvePoint → CurvePoint → Result CurvePoint
  unfolding point_add wrap
  add self other = wrap (point_add CURVE self.backend_point other.backend_point)

  unfoldable pub neg : CurvePoint → Result CurvePoint
  unfolding point_neg wrap
  neg self = wrap (point_neg CURVE self.backend_point)

  unfoldable pub sub : CurvePoint → CurvePoint → Result CurvePoint
  unfolding add neg
  sub self other = do minus ← neg other; add self minus

  unfoldable pub random : Random CurvePoint
  unfolding CurveScalar.random_nonzero mul generator
  random = CurveScalar.random_nonzero >>=ᵣ λ scalar. lift (mul generator scalar)

  unfoldable pub to_affine : CurvePoint → Result (ℤ × ℤ)
  unfolding point_to_affine_coords
  to_affine self = point_to_affine_coords CURVE self.backend_point

  unfoldable pub serialized_size : ℕ
  serialized_size = CURVE.field_element_size + 1

  unfoldable pub from_exact_bytes : Bytes → Result CurvePoint
  unfolding point_from_bytes wrap
  from_exact_bytes bs = wrap (point_from_bytes CURVE bs)

  unfoldable pub to_bytes : CurvePoint → Result Bytes
  unfolding point_to_bytes_compressed
  to_bytes self = point_to_bytes_compressed CURVE self.backend_point

  unfoldable pub eq : CurvePoint → CurvePoint → Result Bool
  unfolding point_eq
  eq self other = point_eq CURVE self.backend_point other.backend_point

  unfoldable pub point_serial : Serial CurvePoint
  unfolding serialized_size from_exact_bytes to_bytes
  point_serial = record {
    serialized_size = serialized_size;
    from_exact_bytes = from_exact_bytes;
    to_bytes = to_bytes;
  }
