-- ===== src/CurvePoint/RoundTrip.antt =====
-- Points are written in compressed form and read back. The identity is the exception: it is
-- written in one byte.
use nucypher_kms_umbral.Prelude.{◌≡◌, ◌≢◌, ok, [], ◌∷◌}
use nucypher_kms_umbral.Backend.Interface.{Backend}
use nucypher_kms_umbral.Backend.Laws.{BignumLaws, CurveLaws, EncodingLaws}
use nucypher_kms_umbral.Openssl.Secp256k1.{secp256k1}
use nucypher_kms_umbral.Serializable.RoundTrip.{RoundTrips}
use nucypher_kms_umbral.CurvePoint.Defs.{to_bytes, point_serial}
use nucypher_kms_umbral.Openssl.Point.{point_from_bytes}
use nucypher_kms_umbral.CurvePoint.Arithmetic.{pt}

module _ ⦃lib : Backend⦄ ⦃bignum : BignumLaws⦄ ⦃curve : CurveLaws⦄ ⦃encoding : EncodingLaws⦄ where
  -- Every point but the identity is written in the constant size and read back.
  pub point-RoundTrips : (p : lib.Point) → p ≢ curve.identity → RoundTrips point_serial (pt p)
  unfolding point_serial
  point-RoundTrips p h =
      let (bs, written, sized, reread) = encoding.point2oct p h in
      record {
        encoding = bs;
        written = rw (← encoding.size_of_degree, written);
        sized = rw (← encoding.size_of_degree) sized;
        reread = rw (point_from_bytes, reread);
      }

  pub to_bytes-identity : to_bytes (pt curve.identity) ≡ ok (0 ∷ [])
  unfolding to_bytes
  to_bytes-identity = rw (← encoding.size_of_degree, encoding.point2oct_identity)
