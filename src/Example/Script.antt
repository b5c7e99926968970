-- ===== src/Example/Script.antt =====
-- The script docs/examples/umbral_simple_api.py. The threshold, the number of fragments and the
-- plaintext, which the script writes out, are arguments of `run`, and `simple_api` has the
-- script's. `random.sample` of Python's library is the argument `sample`.
use nucypher_kms_umbral.Prelude.{
  ℕ, ◌==◌, pos, not, true, List, [], ◌∷◌, ◌++◌, map, length, Error, Result, ok, err, out_of_fuel,
  value_error, assertion_error, raise_if, traverse, ◌>>=◌,
}
use nucypher_kms_umbral.Prelude.Bytes.{Bytes, b, ◌==b◌}
use nucypher_kms_umbral.Backend.Interface.{Backend}
use nucypher_kms_umbral.Backend.Random.{Random, lift, return, for_each, ◌>>=◌ as ◌>>=ᵣ◌}
use nucypher_kms_umbral.Openssl.Curve.{Curve}
use nucypher_kms_umbral.Serializable.Defs.{from_bytes}
use nucypher_kms_umbral.Keys.Defs.{SecretKey, PublicKey, random_secret_key}
use nucypher_kms_umbral.Hashing.ToPoint.{Parameters}
use nucypher_kms_umbral.Capsule.Defs.{Capsule}
use nucypher_kms_umbral.KeyFrag.Defs.{VerifiedKeyFrag}
use nucypher_kms_umbral.CapsuleFrag.Defs.{
  CapsuleFrag, VerifiedCapsuleFrag, verified_cfrag_bytes, cfrag_serial, verify,
}
use nucypher_kms_umbral.Pre.Defs.{
  SomeKeyFrag, SomeCapsuleFrag, encrypt, decrypt_original, generate_kfrags, reencrypt,
  decrypt_reencrypted,
}

-- `except ValueError`: what is printed, and every other exception goes on.
unfoldable pub on_value_error : Error → Result (List Bytes)
on_value_error (value_error message) =
    ok (b "Decryption failed! Bob doesn't has access granted yet." ∷ [])
on_value_error raised = err raised

module _ ⦃lib : Backend⦄ ⦃CURVE : Curve⦄ where
  -- Bob's attempt before he has access: what it prints.
  unfoldable pub attempt : SecretKey → Capsule → Bytes → Result (List Bytes)
  unfolding decrypt_original on_value_error
  attempt bobs_secret_key bob_capsule ciphertext =
      elim (decrypt_original bobs_secret_key bob_capsule ciphertext) [
        | ok fail_decrypted_data ↦ ok []
        | err raised ↦ on_value_error raised
        | out_of_fuel ↦ out_of_fuel
      ]

  -- `CapsuleFrag.from_bytes(bytes(cfrag))`
  unfoldable pub reread : VerifiedCapsuleFrag → Result CapsuleFrag
  unfolding verified_cfrag_bytes from_bytes cfrag_serial
  reread cfrag = do bs ← verified_cfrag_bytes cfrag; from_bytes cfrag_serial bs

  module _ ⦃params : Parameters⦄ where
    -- Bob checks the fragments that he received and opens the capsule.
    unfoldable pub open_by_bob :
        SecretKey
        → PublicKey
        → PublicKey
        → Capsule
        → Bytes
        → List VerifiedCapsuleFrag
        → Result Bytes
    unfolding traverse reread verify decrypt_reencrypted
    open_by_bob bobs_secret_key alices_public_key alices_verifying_key capsule ciphertext cfrags =
        do
          suspicious_cfrags ← traverse reread cfrags
          checked ←
              traverse
                (λ (cfrag : CapsuleFrag).
                  verify cfrag capsule alices_verifying_key alices_public_key
                    bobs_secret_key.public_key)
                suspicious_cfrags
          decrypt_reencrypted bobs_secret_key alices_public_key capsule
              (map SomeCapsuleFrag.verified checked) ciphertext

    module _ (sample : List VerifiedKeyFrag → ℕ → Random (List VerifiedKeyFrag)) (fuel : ℕ) where
      -- The second part of the script: Alice grants access, and Bob opens the capsule.
      unfoldable pub grant :
          ℕ → ℕ → Bytes → SecretKey → SecretKey → SecretKey → Capsule → Bytes → Random Bytes
      unfolding generate_kfrags for_each reencrypt open_by_bob
      grant threshold num_kfrags plaintext alices_secret_key alices_signing_key bobs_secret_key
            capsule ciphertext =
          generate_kfrags fuel alices_secret_key bobs_secret_key.public_key
            (record { secret_key = alices_signing_key }) (pos threshold) (pos num_kfrags) true true
          >>=ᵣ λ all_kfrags. sample all_kfrags threshold >>=ᵣ λ kfrags.
              for_each (λ kfrag. reencrypt capsule (SomeKeyFrag.verified kfrag)) kfrags
              >>=ᵣ λ cfrags.
                  lift (raise_if (not (length cfrags == threshold)) assertion_error) >>=ᵣ λ _.
                  lift (
                    open_by_bob bobs_secret_key alices_secret_key.public_key
                      alices_signing_key.public_key capsule ciphertext cfrags)
                  >>=ᵣ λ bob_cleartext.
                      lift (raise_if (not (bob_cleartext ==b plaintext)) assertion_error) >>=ᵣ λ _.
                      return bob_cleartext

      -- The script, with what it prints in order if it ends without an exception.
      unfoldable pub run : ℕ → ℕ → Bytes → Random (List Bytes)
      unfolding random_secret_key encrypt decrypt_original attempt grant
      run threshold num_kfrags plaintext = random_secret_key >>=ᵣ λ alices_secret_key.
          random_secret_key >>=ᵣ λ alices_signing_key.
          encrypt alices_secret_key.public_key plaintext >>=ᵣ λ pair.
          lift (decrypt_original alices_secret_key pair.0 pair.1) >>=ᵣ λ cleartext.
          random_secret_key >>=ᵣ λ bobs_secret_key.
          lift (attempt bobs_secret_key pair.0 pair.1) >>=ᵣ λ failed.
          grant threshold num_kfrags plaintext alices_secret_key alices_signing_key bobs_secret_key
            pair.0 pair.1
          >>=ᵣ λ bob_cleartext. return (pair.1 ∷ cleartext ∷ (failed ++ (bob_cleartext ∷ [])))

      unfoldable pub simple_api : Random (List Bytes)
      unfolding run
      simple_api = run 10 20 (b "Proxy Re-encryption is cool!")
