-- ===== src/Tests/Checked.antt =====
-- What the three `verify` accept and refuse, at concrete inputs.
use nucypher_kms_umbral.Prelude.{
  ◌≡◌, ◌≢◌, refl, ap, ◌⊎◌, true, false, ok, err, Result, value_error, verification_error, some,
  none, [], ◌∷◌, arith,
}
use nucypher_kms_umbral.Prelude.Bytes.{Bytes, to_bytes, be_value}
use nucypher_kms_umbral.Prelude.Residue.{residue, zero_r}
use nucypher_kms_umbral.Openssl.Secp256k1.{secp256k1, scalar_modulus}
use nucypher_kms_umbral.CurveScalar.Arithmetic.{scalar}
use nucypher_kms_umbral.CurvePoint.Arithmetic.{pt, smul}
use nucypher_kms_umbral.Keys.Pairs.{public_of}
use nucypher_kms_umbral.Hashing.Defs.{hash_to_cfrag_verification, hash_capsule_points}
use nucypher_kms_umbral.Hashing.ToPoint.{Parameters}
use nucypher_kms_umbral.Hashing.Total.{kfrag_signature_message-ok}
use nucypher_kms_umbral.Signing.Defs as Signing
use nucypher_kms_umbral.Serializable.Defs.{from_bytes}
use nucypher_kms_umbral.Capsule.Defs.{Capsule, capsule_bytes, capsule_serial}
use nucypher_kms_umbral.Capsule.Checked.{IsSigned, from_bytes-capsule}
use nucypher_kms_umbral.KeyFrag.Defs as KeyFrag
use nucypher_kms_umbral.KeyFrag.Defs.{KeyFrag, VerifiedKeyFrag}
use nucypher_kms_umbral.KeyFrag.Checked.{Commits, lacks, verify-Commits}
use nucypher_kms_umbral.CapsuleFrag.Defs.{CapsuleFrag, verify}
use nucypher_kms_umbral.CapsuleFrag.Accepted.{key_frag}
use nucypher_kms_umbral.CapsuleFrag.Checked.{Proved, verify-Proved}
use nucypher_kms_umbral.Toy.Group.{multiple, to_octets}
use nucypher_kms_umbral.Toy.Code.{toy, checksum, encode_ints, decode_ints}
use nucypher_kms_umbral.Toy.Laws.{
  toy_numbers, toy_random, toy_curve, toy_encoding, toy_ecdsa, toy_aead,
}
use nucypher_kms_umbral.Tests.Data.{id_one, precursor, proof, signature}

instance abbrev toy_parameters : Parameters
toy_parameters = record { u = pt toy_curve.generator }

abbrev capsule : Capsule
capsule = record { point_e = pt precursor; point_v = pt precursor; signature = scalar (residue 1) }

abbrev forged : CapsuleFrag
forged = record {
  point_e1 = pt precursor;
  point_v1 = pt precursor;
  kfrag_id = id_one;
  precursor = pt precursor;
  proof = proof;
}

abbrev message : Bytes
message =
    (kfrag_signature_message-ok id_one (pt precursor) (pt precursor) (some (public_of (residue 3)))
      (some (public_of (residue 2)))).0

challenge :
    hash_to_cfrag_verification (
      capsule.point_e
      ∷ forged.point_e1
      ∷ pt precursor
      ∷ capsule.point_v
      ∷ forged.point_v1
      ∷ pt precursor
      ∷ pt toy_curve.generator
      ∷ pt precursor
      ∷ pt precursor
      ∷ [])
    ≡ ok (scalar (residue 3))
unfolding hash_to_cfrag_verification to_bytes be_value checksum to_octets multiple smul residue
challenge = refl

signed : Signing.verify signature (public_of (residue 1)) message ≡ ok true
unfolding Signing.verify decode_ints encode_ints residue
signed = refl

verify-Proved_example :
    ((verify forged capsule (public_of (residue 1)) (public_of (residue 3)) (public_of (residue 2))
        ≡ ok (record { cfrag = forged }))
      × (true ≡ true)
      × Proved forged capsule (residue 1) (residue 3))
    ⊎ ((verify forged capsule
            (public_of (residue 1))
            (public_of (residue 3))
            (public_of (residue 2))
          ≡ err (verification_error "Invalid KeyFrag signature"))
        × (true ≡ false))
    ⊎ ((verify forged capsule
            (public_of (residue 1))
            (public_of (residue 3))
            (public_of (residue 2))
          ≡ err (verification_error "Failed to verify reencryption proof"))
        × (true ≡ true)
        × ¬ Proved forged capsule (residue 1) (residue 3))
verify-Proved_example =
    verify-Proved forged capsule (public_of (residue 1)) (public_of (residue 3))
      (public_of (residue 2)) (residue 1) (residue 3) message true refl challenge
      (kfrag_signature_message-ok id_one (pt precursor) (pt precursor)
        (some (public_of (residue 3))) (some (public_of (residue 2)))).1
      signed

abbrev kfrag : KeyFrag
kfrag = key_frag id_one (residue 5) (pt precursor) signature signature true false

abbrev kfrag_message : Bytes
kfrag_message =
    (kfrag_signature_message-ok id_one kfrag.proof.commitment (pt precursor) none none).0

kfrag_signed : Signing.verify signature (public_of (residue 1)) kfrag_message ≡ ok true
unfolding Signing.verify decode_ints encode_ints residue
kfrag_signed = refl

abbrev verified : Result VerifiedKeyFrag
verified = KeyFrag.verify kfrag (public_of (residue 1)) none (some (public_of (residue 2)))

verify-Commits_example :
    ((verified ≡ ok (record { kfrag = kfrag }))
      × Commits kfrag (residue 5)
      × (lacks true none ≡ false)
      × (lacks false (some (public_of (residue 2))) ≡ false)
      × (true ≡ true))
    ⊎ ((verified ≡ err (verification_error "Invalid kfrag commitment"))
        × ¬ Commits kfrag (residue 5))
    ⊎ ((verified
          ≡ err (verification_error "A signature of a delegating key was included in this kfrag"))
        × Commits kfrag (residue 5)
        × (lacks true none ≡ true))
    ⊎ ((verified
          ≡ err (verification_error "A signature of a receiving key was included in this kfrag"))
        × Commits kfrag (residue 5)
        × (lacks true none ≡ false)
        × (lacks false (some (public_of (residue 2))) ≡ true))
    ⊎ ((verified ≡ err (verification_error "Failed to verify the kfrag signature"))
        × Commits kfrag (residue 5)
        × (lacks true none ≡ false)
        × (lacks false (some (public_of (residue 2))) ≡ false)
        × (true ≡ false))
verify-Commits_example =
    verify-Commits kfrag (public_of (residue 1)) none (some (public_of (residue 2))) (residue 5)
      kfrag_message true refl
      (kfrag_signature_message-ok id_one kfrag.proof.commitment (pt precursor) none none).1
      kfrag_signed

capsule_hashed : hash_capsule_points (pt precursor) (pt precursor) ≡ ok (scalar (residue 2))
unfolding hash_capsule_points to_bytes be_value checksum to_octets multiple smul residue
capsule_hashed = refl

precursor_ne : precursor ≢ toy_curve.identity
unfolding smul multiple residue zero_r
precursor_ne e = omega (arith, ap (λ (p : toy.Point). p.0) e)

from_bytes-capsule_example :
    (bs : Bytes) × (capsule_bytes capsule ≡ ok bs)
    × (((from_bytes capsule_serial bs ≡ ok capsule)
          × IsSigned precursor precursor (residue 1) (residue 2))
        ⊎ ((from_bytes capsule_serial bs ≡ err (value_error "Capsule self-verification failed."))
            × ¬ IsSigned precursor precursor (residue 1) (residue 2)))
from_bytes-capsule_example =
    from_bytes-capsule precursor precursor (residue 1) (residue 2) capsule_hashed precursor_ne
      precursor_ne
