-- ===== src/KeyFrag/RoundTrip.antt =====
-- Fragments of the key are written and read back.
use nucypher_kms_umbral.Prelude.{◌≡◌, ◌≢◌, refl, Bool, length}
use nucypher_kms_umbral.Prelude.Bytes.{Bytes}
use nucypher_kms_umbral.Prelude.Residue.{Residue}
use nucypher_kms_umbral.Backend.Interface.{Backend}
use nucypher_kms_umbral.Backend.Laws.{BignumLaws, CurveLaws, EncodingLaws}
use nucypher_kms_umbral.Openssl.Secp256k1.{secp256k1, scalar_modulus}
use nucypher_kms_umbral.Serializable.Defs.{Objects}
use nucypher_kms_umbral.Serializable.RoundTrip.{
  join-RoundTrips, RoundTrips, AllRoundTrip, bool-RoundTrips,
}
use nucypher_kms_umbral.CurveScalar.Arithmetic.{scalar}
use nucypher_kms_umbral.CurveScalar.RoundTrip.{scalar-RoundTrips}
use nucypher_kms_umbral.CurvePoint.Arithmetic.{pt}
use nucypher_kms_umbral.CurvePoint.RoundTrip.{point-RoundTrips}
use nucypher_kms_umbral.Signing.Defs.{Signature, signature_serial}
use nucypher_kms_umbral.KeyFrag.Id.{id_serial, id_size}
use nucypher_kms_umbral.KeyFrag.Defs.{
  KeyFragProof, proof_types, proof_serial, kfrag_types, kfrag_serial,
}

module _ ⦃lib : Backend⦄ where
  pub id-RoundTrips : (bs : Bytes) → length bs ≡ id_size → RoundTrips id_serial (record { id = bs })
  unfolding id_serial
  id-RoundTrips bs h = record { encoding = bs; written = refl; sized = h; reread = refl }

module _ ⦃lib : Backend⦄ ⦃bignum : BignumLaws⦄ ⦃curve : CurveLaws⦄ ⦃encoding : EncodingLaws⦄ where
  pub proof-RoundTrips :
      (commitment : lib.Point) (proxy receiver : Signature) (delegating receiving : Bool)
      → commitment ≢ curve.identity
      → RoundTrips signature_serial proxy
      → RoundTrips signature_serial receiver
      → RoundTrips proof_serial (record {
        commitment = pt commitment;
        signature_for_proxy = proxy;
        signature_for_receiver = receiver;
        delegating_key_signed = delegating;
        receiving_key_signed = receiving;
      })
  unfolding proof_serial
  proof-RoundTrips commitment proxy receiver delegating receiving h hp hr =
      join-RoundTrips _ _ proof_types objs parts refl refl (λ bs e. rw e refl)
    where
      objs : Objects proof_types
      objs = (pt commitment, (proxy, (receiver, (delegating, (receiving, tt)))))

      parts : AllRoundTrip proof_types objs
      parts = (
        point-RoundTrips commitment h,
        (hp, (hr, (bool-RoundTrips delegating, (bool-RoundTrips receiving, tt)))),
      )

  -- A fragment with an id of 32 bytes, a key below the order, a precursor other than the identity,
  -- and a proof that is written and read back, is itself written and read back.
  pub kfrag-RoundTrips :
      (id : Bytes) (key : Residue) (precursor : lib.Point) (proof : KeyFragProof)
      → length id ≡ id_size
      → precursor ≢ curve.identity
      → RoundTrips proof_serial proof
      → RoundTrips kfrag_serial (record {
        id = record { id = id };
        key = scalar key;
        precursor = pt precursor;
        proof = proof;
      })
  unfolding kfrag_serial
  kfrag-RoundTrips id key precursor proof hid hp h =
      join-RoundTrips _ _ kfrag_types objs parts refl refl (λ bs e. rw e refl)
    where
      objs : Objects kfrag_types
      objs = (record { id = id }, (scalar key, (pt precursor, (proof, tt))))

      parts : AllRoundTrip kfrag_types objs
      parts =
          (id-RoundTrips id hid, (scalar-RoundTrips key, (point-RoundTrips precursor hp, (h, tt))))
