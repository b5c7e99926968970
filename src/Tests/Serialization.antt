-- ===== src/Tests/Serialization.antt =====
-- Round trips of signatures and fragments at concrete inputs.
use nucypher_kms_umbral.Prelude.{
  refl, true, false, replicate, ◌≡◌, ◌⊎◌, ◌++◌, ok, err, value_error, String, All-append,
}
use nucypher_kms_umbral.Prelude.Bytes.{Bytes}
use nucypher_kms_umbral.Prelude.Residue.{residue}
use nucypher_kms_umbral.Openssl.Secp256k1.{secp256k1, scalar_modulus}
use nucypher_kms_umbral.Serializable.RoundTrip.{RoundTrips}
use nucypher_kms_umbral.CurveScalar.Arithmetic.{scalar}
use nucypher_kms_umbral.CurvePoint.Arithmetic.{pt}
use nucypher_kms_umbral.Signing.Defs.{Signature, signature_serial, signature_bytes}
use nucypher_kms_umbral.Signing.Canonical.{from_bytes-signature}
use nucypher_kms_umbral.Serializable.Defs.{from_bytes}
use nucypher_kms_umbral.CurveScalar.RoundTrip.{scalar_bytes, scalar_bytes-IsBytes}
use nucypher_kms_umbral.Signing.RoundTrip.{signature-RoundTrips}
use nucypher_kms_umbral.KeyFrag.Defs as KeyFrag
use nucypher_kms_umbral.KeyFrag.Defs.{KeyFragProof, kfrag_serial}
use nucypher_kms_umbral.KeyFrag.RoundTrip as KeyFragRoundTrip
use nucypher_kms_umbral.KeyFrag.RoundTrip.{kfrag-RoundTrips}
use nucypher_kms_umbral.CapsuleFrag.Defs as CapsuleFrag
use nucypher_kms_umbral.CapsuleFrag.Defs.{CapsuleFragProof, cfrag_serial}
use nucypher_kms_umbral.CapsuleFrag.RoundTrip as CapsuleFragRoundTrip
use nucypher_kms_umbral.CapsuleFrag.RoundTrip.{cfrag-RoundTrips}
use nucypher_kms_umbral.Toy.Group.{four, four_ne_zero}
use nucypher_kms_umbral.Toy.Code.{toy}
use nucypher_kms_umbral.Toy.Laws.{toy_numbers, toy_curve, toy_encoding}

abbrev signature : Signature
signature = record { r = scalar (residue 2); s = scalar (residue 3) }

signature-RoundTrips_example : RoundTrips signature_serial signature
signature-RoundTrips_example = signature-RoundTrips (residue 2) (residue 3)

-- The bytes of two scalars, one after the other.
abbrev two_scalars : Bytes
two_scalars = scalar_bytes (residue 3) ++ scalar_bytes (residue 5)

from_bytes-signature_example :
    ((sig : Signature) × (from_bytes signature_serial two_scalars ≡ ok sig)
      × (signature_bytes sig ≡ ok two_scalars))
    ⊎ ((message : String) × (from_bytes signature_serial two_scalars ≡ err (value_error message)))
from_bytes-signature_example = from_bytes-signature two_scalars (
    All-append _ (scalar_bytes (residue 3)) (scalar_bytes (residue 5))
      (scalar_bytes-IsBytes (residue 3)) (scalar_bytes-IsBytes (residue 5)))

signature_read : RoundTrips signature_serial signature
signature_read = signature-RoundTrips (residue 2) (residue 3)

abbrev id : Bytes
id = replicate 32 9

abbrev kfrag_proof : KeyFragProof
kfrag_proof = record {
  commitment = pt four;
  signature_for_proxy = signature;
  signature_for_receiver = signature;
  delegating_key_signed = true;
  receiving_key_signed = false;
}

kfrag_proof_read : RoundTrips KeyFrag.proof_serial kfrag_proof
kfrag_proof_read =
    KeyFragRoundTrip.proof-RoundTrips four signature signature true false four_ne_zero
      signature_read signature_read

kfrag-RoundTrips_example : RoundTrips kfrag_serial (record {
  id = record { id = id };
  key = scalar (residue 5);
  precursor = pt four;
  proof = kfrag_proof;
})
kfrag-RoundTrips_example =
    kfrag-RoundTrips id (residue 5) four kfrag_proof refl four_ne_zero kfrag_proof_read

abbrev cfrag_proof : CapsuleFragProof
cfrag_proof = record {
  point_e2 = pt four;
  point_v2 = pt four;
  kfrag_commitment = pt four;
  kfrag_pok = pt four;
  signature = scalar (residue 6);
  kfrag_signature = signature;
}

cfrag_proof_read : RoundTrips CapsuleFrag.proof_serial cfrag_proof
cfrag_proof_read =
    CapsuleFragRoundTrip.proof-RoundTrips four four four four (residue 6) signature four_ne_zero
      four_ne_zero four_ne_zero four_ne_zero signature_read

cfrag-RoundTrips_example : RoundTrips cfrag_serial (record {
  point_e1 = pt four;
  point_v1 = pt four;
  kfrag_id = record { id = id };
  precursor = pt four;
  proof = cfrag_proof;
})
cfrag-RoundTrips_example =
    cfrag-RoundTrips four four id four cfrag_proof four_ne_zero four_ne_zero refl four_ne_zero
      cfrag_proof_read
