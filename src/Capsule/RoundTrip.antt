-- ===== src/Capsule/RoundTrip.antt =====
-- Capsules are written.
use nucypher_kms_umbral.Prelude.{◌≡◌, ok, [], ◌++◌}
use nucypher_kms_umbral.Prelude.Bytes.{Bytes}
use nucypher_kms_umbral.Prelude.Residue.{Residue}
use nucypher_kms_umbral.Backend.Interface.{Backend}
use nucypher_kms_umbral.Backend.Laws.{BignumLaws, CurveLaws, EncodingLaws}
use nucypher_kms_umbral.Openssl.Secp256k1.{secp256k1, scalar_modulus}
use nucypher_kms_umbral.CurveScalar.Arithmetic.{scalar}
use nucypher_kms_umbral.CurveScalar.RoundTrip.{scalar_bytes, to_bytes-scalar}
use nucypher_kms_umbral.CurvePoint.Arithmetic.{pt, to_bytes-pt}
use nucypher_kms_umbral.CurvePoint.Defs.{point_serial}
use nucypher_kms_umbral.CurveScalar.Defs.{scalar_serial}
use nucypher_kms_umbral.Capsule.Defs.{capsule_bytes}

module _ ⦃lib : Backend⦄ ⦃bignum : BignumLaws⦄ ⦃curve : CurveLaws⦄ ⦃encoding : EncodingLaws⦄ where
  -- `bytes` of a capsule with a scalar below the order never fails.
  pub capsule_bytes-ok :
      (e v : lib.Point) (s : Residue)
      → (bs : Bytes) × (capsule_bytes
            (record { point_e = pt e; point_v = pt v; signature = scalar s })
          ≡ ok bs)
  unfolding capsule_bytes point_serial scalar_serial
  capsule_bytes-ok e v s =
      let (e_bytes, e_written) = to_bytes-pt e in
      let (v_bytes, v_written) = to_bytes-pt v in
      (e_bytes ++ (v_bytes ++ (scalar_bytes s ++ [])), rw (e_written, v_written, to_bytes-scalar s))
