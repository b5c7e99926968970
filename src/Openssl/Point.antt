-- ===== src/Openssl/Point.antt =====
-- The point functions of umbral/openssl.py.
use nucypher_kms_umbral.Prelude.{
  ℕ, ℤ, pos, negsuc, ◌+◌, ◌==◌, ◌==ℤ◌, Bool, none, some, Result, ok, err, if◌then◌else◌,
  openssl_assert, internal_error, invalid_compressed_point, invalid_point_encoding, value_error,
  raise_if, ◌>>◌,
}
use nucypher_kms_umbral.Prelude.Bytes.{Bytes}
use nucypher_kms_umbral.Backend.Interface.{Backend, decoded, reason}
use nucypher_kms_umbral.Openssl.Bignum.{bn_to_int}
use nucypher_kms_umbral.Openssl.Curve.{Curve}

module _ ⦃lib : Backend⦄ where
  -- The `try` turns an InternalError into a ValueError.
  unfoldable pub point_to_affine_coords : Curve → lib.Point → Result (ℤ × ℤ)
  unfolding bn_to_int
  point_to_affine_coords curve point =
      elim (lib.ec_point_get_affine_coordinates curve.ec_group point) [
        | none ↦ err (value_error "Cannot get affine coordinates of an identity point")
        | some (affine_x, affine_y) ↦ ok (bn_to_int affine_x, bn_to_int affine_y)
      ]

  -- The `except` clause of `point_from_bytes`: two reason codes become exceptions of their own.
  unfoldable pub point_error : {A : Type 0} → ℕ → Result A
  point_error code =
      if code == 110
      then err invalid_compressed_point
      else if code == 102
      then err invalid_point_encoding
      else err internal_error

  unfoldable pub point_from_bytes : Curve → Bytes → Result lib.Point
  unfolding point_error
  point_from_bytes curve bs = elim (lib.ec_point_oct2point curve.ec_group bs) [
    | decoded p ↦ ok p
    | reason code ↦ point_error code
  ]

  unfoldable pub point_to_bytes_compressed : Curve → lib.Point → Result Bytes
  point_to_bytes_compressed curve point =
      let size = curve.field_element_size + 1 in
      openssl_assert (lib.ec_point_point2oct curve.ec_group point size)

  unfoldable pub point_eq : Curve → lib.Point → lib.Point → Result Bool
  point_eq curve point1 point2 = do
    let is_equal = lib.ec_point_cmp curve.ec_group point1 point2
    raise_if (is_equal ==ℤ negsuc 0) internal_error
    ok (is_equal ==ℤ pos 0)

  unfoldable pub point_mul_bn : Curve → lib.Point → lib.Bignum → Result lib.Point
  point_mul_bn curve point bn = openssl_assert (lib.ec_point_mul curve.ec_group point bn)

  unfoldable pub point_add : Curve → lib.Point → lib.Point → Result lib.Point
  point_add curve point1 point2 = openssl_assert (lib.ec_point_add curve.ec_group point1 point2)

  unfoldable pub point_neg : Curve → lib.Point → Result lib.Point
  point_neg curve point = openssl_assert (lib.ec_point_invert curve.ec_group point)
