-- ===== src/Example/Vectors.antt =====
-- The two parts of vectors/generate_test_vectors.py on fragments. Of a vector file only the data
-- are modelled, not the names and descriptions around them, nor the writing of the file.
use nucypher_kms_umbral.Prelude.{some, List, Result, ok, traverse, ◌>>=◌}
use nucypher_kms_umbral.Prelude.Bytes.{Bytes, hex}
use nucypher_kms_umbral.Backend.Interface.{Backend}
use nucypher_kms_umbral.Backend.Random.{Random, lift, return, for_each, ◌>>=◌ as ◌>>=ᵣ◌}
use nucypher_kms_umbral.Openssl.Curve.{Curve}
use nucypher_kms_umbral.Serializable.Defs.{from_bytes}
use nucypher_kms_umbral.Keys.Defs.{PublicKey}
use nucypher_kms_umbral.Hashing.ToPoint.{Parameters}
use nucypher_kms_umbral.Capsule.Defs.{Capsule}
use nucypher_kms_umbral.KeyFrag.Defs.{
  VerifiedKeyFrag, verified_kfrag_bytes, kfrag_bytes, kfrag_serial, verify,
}
use nucypher_kms_umbral.CapsuleFrag.Defs.{verified_cfrag_bytes}
use nucypher_kms_umbral.Pre.Defs.{SomeKeyFrag, reencrypt}

module _ ⦃lib : Backend⦄ ⦃CURVE : Curve⦄ ⦃params : Parameters⦄ where
  -- One round of the loop over `kfrags`: the fragment is written, read, verified and written again.
  unfoldable pub kfrag_vector : PublicKey → PublicKey → PublicKey → VerifiedKeyFrag → Result Bytes
  unfolding verified_kfrag_bytes from_bytes kfrag_serial verify kfrag_bytes hex
  kfrag_vector verifying_pk delegating_pk receiving_pk vkfrag = do
    bs ← verified_kfrag_bytes vkfrag
    kfrag ← from_bytes kfrag_serial bs
    checked ← verify kfrag verifying_pk (some delegating_pk) (some receiving_pk)
    written ← kfrag_bytes kfrag
    ok (hex written)

  unfoldable pub kfrag_vectors :
      PublicKey → PublicKey → PublicKey → List VerifiedKeyFrag → Result (List Bytes)
  unfolding traverse kfrag_vector
  kfrag_vectors verifying_pk delegating_pk receiving_pk kfrags =
      traverse (kfrag_vector verifying_pk delegating_pk receiving_pk) kfrags

  -- One round of the second loop: the fragment and what a proxy makes of it.
  unfoldable pub cfrag_vector : Capsule → VerifiedKeyFrag → Random (Bytes × Bytes)
  unfolding reencrypt verified_kfrag_bytes verified_cfrag_bytes hex
  cfrag_vector capsule kfrag = reencrypt capsule (SomeKeyFrag.verified kfrag) >>=ᵣ λ cfrag.
      lift (verified_kfrag_bytes kfrag) >>=ᵣ λ kfrag_written.
      lift (verified_cfrag_bytes cfrag) >>=ᵣ λ cfrag_written.
      return (hex kfrag_written, hex cfrag_written)

  unfoldable pub cfrag_vectors : Capsule → List VerifiedKeyFrag → Random (List (Bytes × Bytes))
  unfolding for_each cfrag_vector
  cfrag_vectors capsule kfrags = for_each (cfrag_vector capsule) kfrags
