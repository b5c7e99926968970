-- ===== src/CapsuleFrag/RoundTrip.antt =====
-- Capsule fragments are written and read back.
use nucypher_kms_umbral.Prelude.{◌≡◌, ◌≢◌, refl, length}
use nucypher_kms_umbral.Prelude.Bytes.{Bytes}
use nucypher_kms_umbral.Prelude.Residue.{Residue}
use nucypher_kms_umbral.Backend.Interface.{Backend}
use nucypher_kms_umbral.Backend.Laws.{BignumLaws, CurveLaws, EncodingLaws}
use nucypher_kms_umbral.Openssl.Secp256k1.{secp256k1, scalar_modulus}
use nucypher_kms_umbral.Serializable.Defs.{Objects}
use nucypher_kms_umbral.Serializable.RoundTrip.{join-RoundTrips, RoundTrips, AllRoundTrip}
use nucypher_kms_umbral.CurveScalar.Arithmetic.{scalar}
use nucypher_kms_umbral.CurveScalar.RoundTrip.{scalar-RoundTrips}
use nucypher_kms_umbral.CurvePoint.Arithmetic.{pt}
use nucypher_kms_umbral.CurvePoint.RoundTrip.{point-RoundTrips}
use nucypher_kms_umbral.Signing.Defs.{Signature, signature_serial}
use nucypher_kms_umbral.KeyFrag.Id.{id_size}
use nucypher_kms_umbral.KeyFrag.RoundTrip.{id-RoundTrips}
use nucypher_kms_umbral.CapsuleFrag.Defs.{
  CapsuleFragProof, proof_types, proof_serial, cfrag_types, cfrag_serial,
}

module _ ⦃lib : Backend⦄ ⦃bignum : BignumLaws⦄ ⦃curve : CurveLaws⦄ ⦃encoding : EncodingLaws⦄ where
  pub proof-RoundTrips :
      (e2 v2 commitment pok : lib.Point) (z : Residue) (signature : Signature)
      → e2 ≢ curve.identity
      → v2 ≢ curve.identity
      → commitment ≢ curve.identity
      → pok ≢ curve.identity
      → RoundTrips signature_serial signature
      → RoundTrips proof_serial (record {
        point_e2 = pt e2;
        point_v2 = pt v2;
        kfrag_commitment = pt commitment;
        kfrag_pok = pt pok;
        signature = scalar z;
        kfrag_signature = signature;
      })
  unfolding proof_serial
  proof-RoundTrips e2 v2 commitment pok z signature he hv hc hk hs =
      join-RoundTrips _ _ proof_types objs parts refl refl (λ bs e. rw e refl)
    where
      objs : Objects proof_types
      objs = (pt e2, (pt v2, (pt commitment, (pt pok, (scalar z, (signature, tt))))))

      parts : AllRoundTrip proof_types objs
      parts = (
        point-RoundTrips e2 he,
        (
          point-RoundTrips v2 hv,
          (
            point-RoundTrips commitment hc,
            (point-RoundTrips pok hk, (scalar-RoundTrips z, (hs, tt))),
          ),
        ),
      )

  -- A fragment with an id of 32 bytes, points other than the identity, and a proof that is written
  -- and read back, is itself written and read back.
  pub cfrag-RoundTrips :
      (e1 v1 : lib.Point) (id : Bytes) (precursor : lib.Point) (proof : CapsuleFragProof)
      → e1 ≢ curve.identity
      → v1 ≢ curve.identity
      → length id ≡ id_size
      → precursor ≢ curve.identity
      → RoundTrips proof_serial proof
      → RoundTrips cfrag_serial (record {
        point_e1 = pt e1;
        point_v1 = pt v1;
        kfrag_id = record { id = id };
        precursor = pt precursor;
        proof = proof;
      })
  unfolding cfrag_serial
  cfrag-RoundTrips e1 v1 id precursor proof he hv hid hp h =
      join-RoundTrips _ _ cfrag_types objs parts refl refl (λ bs e. rw e refl)
    where
      objs : Objects cfrag_types
      objs = (pt e1, (pt v1, (record { id = id }, (pt precursor, (proof, tt)))))

      parts : AllRoundTrip cfrag_types objs
      parts = (
        point-RoundTrips e1 he,
        (point-RoundTrips v1 hv, (id-RoundTrips id hid, (point-RoundTrips precursor hp, (h, tt)))),
      )
