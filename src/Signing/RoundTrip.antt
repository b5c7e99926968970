-- ===== src/Signing/RoundTrip.antt =====
-- Signatures are written and read back.
use nucypher_kms_umbral.Prelude.{refl}
use nucypher_kms_umbral.Prelude.Residue.{Residue}
use nucypher_kms_umbral.Backend.Interface.{Backend}
use nucypher_kms_umbral.Backend.Laws.{BignumLaws, CurveLaws}
use nucypher_kms_umbral.Openssl.Secp256k1.{secp256k1, scalar_modulus}
use nucypher_kms_umbral.Serializable.Defs.{Objects}
use nucypher_kms_umbral.Serializable.RoundTrip.{join-RoundTrips, RoundTrips, AllRoundTrip}
use nucypher_kms_umbral.CurveScalar.Arithmetic.{scalar}
use nucypher_kms_umbral.CurveScalar.RoundTrip.{scalar-RoundTrips}
use nucypher_kms_umbral.Signing.Defs.{signature_types, signature_serial}

module _ ⦃lib : Backend⦄ ⦃bignum : BignumLaws⦄ ⦃curve : CurveLaws⦄ where
  -- A signature of scalars below the order is written in the constant size and read back.
  pub signature-RoundTrips :
      (r s : Residue) → RoundTrips signature_serial (record { r = scalar r; s = scalar s })
  unfolding signature_serial
  signature-RoundTrips r s =
      join-RoundTrips _ _ signature_types objs parts refl refl (λ bs e. rw e refl)
    where
      objs : Objects signature_types
      objs = (scalar r, (scalar s, tt))

      parts : AllRoundTrip signature_types objs
      parts = (scalar-RoundTrips r, (scalar-RoundTrips s, tt))
