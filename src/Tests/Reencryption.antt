-- ===== src/Tests/Reencryption.antt =====
-- Theorems on re-encryption at concrete inputs.
use nucypher_kms_umbral.Prelude.{◌≡◌, ◌≢◌, refl, ap, true, [], ◌∷◌, ok, some, false, map, arith}
use nucypher_kms_umbral.Prelude.Bytes.{Bytes}
use nucypher_kms_umbral.Prelude.Residue.{Residue, residue, zero_r}
use nucypher_kms_umbral.Openssl.Secp256k1.{secp256k1, scalar_modulus}
use nucypher_kms_umbral.CurveScalar.Arithmetic.{scalar}
use nucypher_kms_umbral.CurvePoint.Arithmetic.{pt, smul}
use nucypher_kms_umbral.Keys.Pairs.{public_of, key_of}
use nucypher_kms_umbral.Hashing.ToPoint.{Parameters}
use nucypher_kms_umbral.Hashing.Total.{kfrag_signature_message-ok}
use nucypher_kms_umbral.Signing.Defs as Signing
use nucypher_kms_umbral.Signing.Defs.{Signature}
use nucypher_kms_umbral.CapsuleFrag.Defs.{CapsuleFrag, reencrypted, verify}
use nucypher_kms_umbral.CapsuleFrag.Accepted.{key_frag, verify-reencrypted}
use nucypher_kms_umbral.Capsule.Original.{capsule_of, shared_key}
use nucypher_kms_umbral.Capsule.Open.{open_reencrypted}
use nucypher_kms_umbral.Capsule.Reencrypted.{share_value}
use nucypher_kms_umbral.Capsule.Collected.{proof_bytes-Writable}
use nucypher_kms_umbral.Capsule.Fragments.{IsFragment, Fragments, open_reencrypted-fragments}
use nucypher_kms_umbral.Capsule.Proxied.{reencrypted-IsFragment}
use nucypher_kms_umbral.KeyFrag.Defs as KeyFrag
use nucypher_kms_umbral.KeyFrag.Defs.{KeyFrag}
use nucypher_kms_umbral.KeyFrag.Generate.{KeyFragBase, kfrag_from_base}
use nucypher_kms_umbral.KeyFrag.Accepted.{verify-kfrag_from_base}
use nucypher_kms_umbral.Toy.Code.{toy, decode_ints, encode_ints}
use nucypher_kms_umbral.Toy.Laws.{
  toy_numbers, toy_random, toy_curve, toy_encoding, toy_ecdsa, toy_aead,
}
use nucypher_kms_umbral.Tests.Data.{
  delegate, precursor, id_one, id_two, secret_ok, index_one, index_two, six_ne, indices_ne,
  signature, encryption, fragment, proof_encoding, proof_written,
}

abbrev fragments :
    Fragments
      (residue 3)
      (residue 6)
      encryption.r
      encryption.u
      delegate
      precursor
      (residue 4 ∷ [])
      (fragment id_one (residue 0) ∷ fragment id_two (residue 1) ∷ [])
      (residue 0 ∷ residue 1 ∷ [])
fragments = (
  (
    index_one,
    refl,
    refl,
    refl,
    proof_bytes-Writable (fragment id_one (residue 0)) proof_encoding proof_written,
  ),
  (
    (
      index_two,
      refl,
      refl,
      refl,
      proof_bytes-Writable (fragment id_two (residue 1)) proof_encoding proof_written,
    ),
    tt,
  ),
)

open_reencrypted-fragments_example :
    open_reencrypted
      (capsule_of encryption.r encryption.u encryption.h)
      (key_of delegate)
      (public_of (residue 3))
      (fragment id_one (residue 0) ∷ fragment id_two (residue 1) ∷ [])
    ≡ ok (shared_key (residue 3) encryption.r encryption.u)
open_reencrypted-fragments_example =
    open_reencrypted-fragments (residue 3) (residue 6) encryption.r encryption.u delegate precursor
      (residue 4 ∷ []) encryption.h encryption.hashed six_ne secret_ok (fragment id_one (residue 0))
      (fragment id_two (residue 1) ∷ []) (residue 0) (residue 1 ∷ []) fragments
      ((indices_ne, tt), (tt, tt)) (omega arith)

instance abbrev toy_parameters : Parameters
toy_parameters = record { u = pt toy_curve.generator }

abbrev message : Bytes
message =
    (kfrag_signature_message-ok id_one (pt (smul (residue 4) toy_curve.generator)) (pt precursor)
      (some (public_of (residue 3))) (some (public_of delegate))).0

signed : Signing.verify signature (public_of (residue 1)) message ≡ ok true
unfolding Signing.verify decode_ints encode_ints residue
signed = refl

verify-reencrypted_example :
    (cfrag : CapsuleFrag) × (rng' : toy.Rng) × (reencrypted
        (record { point_e = pt precursor; point_v = pt precursor; signature = scalar (residue 1) })
        (key_frag id_one (residue 4) (pt precursor) signature signature true true)
        9
      ≡ ok (cfrag, rng'))
    × (verify cfrag
          (record {
            point_e = pt precursor;
            point_v = pt precursor;
            signature = scalar (residue 1);
          })
          (public_of (residue 1))
          (public_of (residue 3))
          (public_of delegate)
        ≡ ok (record { cfrag = cfrag }))
verify-reencrypted_example =
    verify-reencrypted precursor precursor (scalar (residue 1)) id_one (residue 4) (pt precursor)
      signature signature true true (public_of (residue 1)) (public_of (residue 3))
      (public_of delegate) message
      (kfrag_signature_message-ok id_one (pt (smul (residue 4) toy_curve.generator)) (pt precursor)
        (some (public_of (residue 3))) (some (public_of delegate))).1
      signed 9

abbrev base : KeyFragBase
base = record {
  signer = record { secret_key = key_of (residue 3) };
  precursor = pt precursor;
  dh_point = pt (smul delegate precursor);
  delegating_pk = public_of (residue 3);
  receiving_pk = public_of delegate;
  coefficients = map scalar (residue 4 ∷ residue 2 ∷ []);
}

three_ne : residue 3 ≢ zero_r
unfolding residue zero_r
three_ne e = omega (arith, ap (λ (t : Residue). t.0) e)

verify-kfrag_from_base_example :
    (kfrag : KeyFrag) × (rng' : toy.Rng) × (kfrag_from_base base true false 6 ≡ ok (kfrag, rng'))
    × (KeyFrag.verify kfrag
          (public_of (residue 3))
          (some (public_of (residue 3)))
          (some (public_of delegate))
        ≡ ok (record { kfrag = kfrag }))
verify-kfrag_from_base_example =
    verify-kfrag_from_base (residue 3) (residue 4) (residue 2 ∷ []) (pt precursor)
      (pt (smul delegate precursor)) (public_of (residue 3)) (public_of delegate) true false
      three_ne 6

reencrypted-IsFragment_example :
    (cfrag : CapsuleFrag) × (rng' : toy.Rng) × (reencrypted
        (capsule_of (residue 4) (residue 5) (residue 1))
        (key_frag id_one
          (share_value (residue 3) (residue 6) (residue 4 ∷ []) (residue 0))
          (pt precursor)
          signature
          (record { r = scalar (residue 1); s = scalar (residue 2) })
          true
          false)
        9
      ≡ ok (cfrag, rng'))
    × IsFragment
        (residue 3)
        (residue 6)
        (residue 4)
        (residue 5)
        delegate
        precursor
        (residue 4 ∷ [])
        cfrag
        (residue 0)
reencrypted-IsFragment_example =
    reencrypted-IsFragment (residue 3) (residue 6) (residue 4) (residue 5) (residue 1) delegate
      precursor (residue 4 ∷ []) id_one (residue 0) signature (residue 1) (residue 2) true false
      index_one 9
