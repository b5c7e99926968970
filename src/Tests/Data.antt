-- ===== src/Tests/Data.antt =====
-- Keys, fragments and an encryption for the tests on re-encryption.
use nucypher_kms_umbral.Prelude.{◌≡◌, ◌≢◌, refl, ap, [], ◌∷◌, ok, arith, Result}
use nucypher_kms_umbral.Prelude.Bytes.{Bytes, to_bytes, be_value, be_digits}
use nucypher_kms_umbral.Prelude.Residue.{Residue, residue, zero_r}
use nucypher_kms_umbral.Openssl.Secp256k1.{secp256k1, scalar_modulus}
use nucypher_kms_umbral.CurveScalar.Defs.{CurveScalar, scalar_serial}
use nucypher_kms_umbral.CurveScalar.Arithmetic.{scalar}
use nucypher_kms_umbral.CurvePoint.Defs.{point_serial}
use nucypher_kms_umbral.CurvePoint.Arithmetic.{pt, smul}
use nucypher_kms_umbral.Hashing.Defs.{hash_to_shared_secret, hash_to_polynomial_arg}
use nucypher_kms_umbral.KeyFrag.Id.{KeyFragId}
use nucypher_kms_umbral.Signing.Defs as Signing
use nucypher_kms_umbral.Signing.Defs.{Signature}
use nucypher_kms_umbral.CapsuleFrag.Defs.{CapsuleFrag, CapsuleFragProof, proof_bytes}
use nucypher_kms_umbral.Capsule.Reencrypted.{share_value}
use nucypher_kms_umbral.Pre.Original.{Encryption, encrypt-ok}
use nucypher_kms_umbral.Toy.Group.{multiple, to_octets}
use nucypher_kms_umbral.Toy.Code.{toy, checksum}
use nucypher_kms_umbral.Toy.Laws.{
  toy_numbers, toy_random, toy_curve, toy_encoding, toy_ecdsa, toy_aead,
}

abbrev pub delegate : Residue
delegate = residue 2

abbrev pub precursor : toy.Point
precursor = smul (residue 5) toy_curve.generator

abbrev pub id_one : KeyFragId
id_one = record { id = 1 ∷ [] }

abbrev pub id_two : KeyFragId
id_two = record { id = 2 ∷ [] }

abbrev pub secret : Result CurveScalar
secret =
    hash_to_shared_secret (pt precursor) (pt (smul delegate toy_curve.generator))
      (pt (smul delegate precursor))

abbrev pub index : KeyFragId → Result CurveScalar
index =
    hash_to_polynomial_arg (pt precursor) (pt (smul delegate toy_curve.generator))
      (pt (smul delegate precursor))

pub secret_ok : secret ≡ ok (scalar (residue 6))
unfolding hash_to_shared_secret to_bytes residue be_value checksum to_octets smul multiple
secret_ok = refl

pub index_one : index id_one ≡ ok (scalar (residue 0))
unfolding hash_to_polynomial_arg to_bytes residue be_value checksum to_octets smul multiple
index_one = refl

pub index_two : index id_two ≡ ok (scalar (residue 1))
unfolding hash_to_polynomial_arg to_bytes residue be_value checksum to_octets smul multiple
index_two = refl

pub six_ne : residue 6 ≢ zero_r
unfolding residue zero_r
six_ne e = omega (arith, ap (λ (t : Residue). t.0) e)

pub indices_ne : residue 0 ≢ residue 1
unfolding residue
indices_ne e = omega (arith, ap (λ (t : Residue). t.0) e)

abbrev pub signature : Signature
signature = record { r = scalar (residue 1); s = scalar (residue 2) }

abbrev pub proof : CapsuleFragProof
proof = record {
  point_e2 = pt precursor;
  point_v2 = pt precursor;
  kfrag_commitment = pt precursor;
  kfrag_pok = pt precursor;
  signature = scalar (residue 1);
  kfrag_signature = signature;
}

abbrev pub encryption : Encryption (residue 3) (7 ∷ 8 ∷ []) 5
encryption = encrypt-ok (residue 3) (7 ∷ 8 ∷ []) 5

-- The fragment at an index, of a polynomial with two coefficients.
abbrev pub fragment : KeyFragId → Residue → CapsuleFrag
fragment id x = record {
  point_e1 = pt (
      smul (share_value (residue 3) (residue 6) (residue 4 ∷ []) x)
        (smul encryption.r toy_curve.generator));
  point_v1 = pt (
      smul (share_value (residue 3) (residue 6) (residue 4 ∷ []) x)
        (smul encryption.u toy_curve.generator));
  kfrag_id = id;
  precursor = pt precursor;
  proof = proof;
}

abbrev pub proof_encoding : Bytes
proof_encoding =
    2 ∷ 5 ∷ 2 ∷ 5 ∷ 2 ∷ 5 ∷ 2 ∷ 5 ∷ 0 ∷ 0 ∷ 0 ∷ 0 ∷ 0 ∷ 0 ∷ 1 ∷ 0 ∷ 0 ∷ 0 ∷ 0 ∷ 0 ∷ 0 ∷ 1 ∷ 0 ∷ 0
    ∷ 0 ∷ 0 ∷ 0 ∷ 0 ∷ 2 ∷ []

pub proof_written : proof_bytes proof ≡ ok proof_encoding
unfolding proof_bytes point_serial scalar_serial residue Signing.signature_serial to_octets smul
    multiple be_digits
proof_written = refl
