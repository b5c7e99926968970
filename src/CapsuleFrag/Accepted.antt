-- ===== src/CapsuleFrag/Accepted.antt =====
-- The proof of a re-encryption: what `reencrypted` makes of a fragment of the key, `verify` accepts.
use nucypher_kms_umbral.Prelude.{◌≡◌, refl, ap, ◌∙◌, Bool, true, ok, some, List, [], ◌∷◌}
use nucypher_kms_umbral.Prelude.Bytes.{Bytes}
use nucypher_kms_umbral.Prelude.Residue.{Residue, ◌⊕◌, ◌⊗◌, ⊗_comm}
use nucypher_kms_umbral.Backend.Interface.{Backend}
use nucypher_kms_umbral.Backend.Laws.{BignumLaws, CurveLaws, EncodingLaws, RandomLaws}
use nucypher_kms_umbral.Backend.Random.{run_bind, run_lift}
use nucypher_kms_umbral.Openssl.Secp256k1.{secp256k1, scalar_modulus}
use nucypher_kms_umbral.CurveScalar.Defs.{CurveScalar, random_nonzero}
use nucypher_kms_umbral.CurveScalar.Arithmetic.{scalar, mul-scalar, add-scalar, random_nonzero_lem}
use nucypher_kms_umbral.CurvePoint.Defs.{CurvePoint}
use nucypher_kms_umbral.CurvePoint.Arithmetic.{pt, smul, mul-pt, add-pt, eq-pt_same, smul-⊕, smul-⊗}
use nucypher_kms_umbral.Hashing.Defs.{hash_to_cfrag_verification, kfrag_signature_message}
use nucypher_kms_umbral.Hashing.ToPoint.{Parameters}
use nucypher_kms_umbral.Hashing.Total.{hash_to_cfrag_verification-scalar}
use nucypher_kms_umbral.Keys.Defs.{PublicKey}
use nucypher_kms_umbral.Signing.Defs as Signing
use nucypher_kms_umbral.Signing.Defs.{Signature}
use nucypher_kms_umbral.KeyFrag.Id.{KeyFragId}
use nucypher_kms_umbral.KeyFrag.Defs.{KeyFrag}
use nucypher_kms_umbral.Capsule.Defs.{Capsule}
use nucypher_kms_umbral.CapsuleFrag.Defs.{
  CapsuleFrag, CapsuleFragProof, prove, from_kfrag_and_cfrag, reencrypted, check_part, verify,
}

module _ ⦃lib : Backend⦄ ⦃bignum : BignumLaws⦄ ⦃curve : CurveLaws⦄ ⦃encoding : EncodingLaws⦄ where
  open curve use {plus}

  module _ ⦃params : Parameters⦄ where
    check_part-ok :
        (p : lib.Point) (k t h : Residue)
        → check_part (pt p) (pt (smul k p)) (pt (smul t p)) (scalar (t ⊕ k ⊗ h)) (scalar h)
          ≡ ok true
    unfolding check_part
    check_part-ok p k t h = rw (mul-pt, mul-pt, add-pt, response) (eq-pt_same _)
      where
        response : smul (t ⊕ k ⊗ h) p ≡ plus (smul t p) (smul h (smul k p))
        response =
            smul-⊕ t (k ⊗ h) p
            ∙ ap (plus (smul t p)) (ap (λ c. smul c p) (⊗_comm k h) ∙ smul-⊗ h k p)

    -- A fragment of the key whose commitment is the key times the point `u` of the parameters.
    abbrev pub key_frag :
        KeyFragId → Residue → CurvePoint → Signature → Signature → Bool → Bool → KeyFrag
    key_frag id k precursor proxy receiver delegating_key_signed receiving_key_signed = record {
      id = id;
      key = scalar k;
      precursor = precursor;
      proof = record {
        commitment = pt (smul k params.u.backend_point);
        signature_for_proxy = proxy;
        signature_for_receiver = receiver;
        delegating_key_signed = delegating_key_signed;
        receiving_key_signed = receiving_key_signed;
      };
    }

    module _ (e v : lib.Point) (s : CurveScalar) (id : KeyFragId) (k : Residue)
        (precursor : CurvePoint) (proxy receiver : Signature)
        (delegating_key_signed receiving_key_signed : Bool) where
      abbrev capsule : Capsule
      capsule = record { point_e = pt e; point_v = pt v; signature = s }

      abbrev kfrag : KeyFrag
      kfrag = key_frag id k precursor proxy receiver delegating_key_signed receiving_key_signed

      abbrev u : lib.Point
      u = params.u.backend_point

      -- The points that are hashed, for the scalar `t` that is drawn.
      abbrev transcript : Residue → List CurvePoint
      transcript t =
          pt e
          ∷ pt (smul k e)
          ∷ pt (smul t e)
          ∷ pt v
          ∷ pt (smul k v)
          ∷ pt (smul t v)
          ∷ pt u
          ∷ pt (smul k u)
          ∷ pt (smul t u)
          ∷ []

      abbrev answer_proof : Residue → Residue → CapsuleFragProof
      answer_proof t h = record {
        point_e2 = pt (smul t e);
        point_v2 = pt (smul t v);
        kfrag_commitment = pt (smul k u);
        kfrag_pok = pt (smul t u);
        signature = scalar (t ⊕ k ⊗ h);
        kfrag_signature = receiver;
      }

      abbrev pub answer : Residue → Residue → CapsuleFrag
      answer t h = record {
        point_e1 = pt (smul k e);
        point_v1 = pt (smul k v);
        kfrag_id = id;
        precursor = precursor;
        proof = answer_proof t h;
      }

      prove-ok :
          (t h : Residue)
          → hash_to_cfrag_verification (transcript t) ≡ ok (scalar h)
          → prove capsule kfrag (pt (smul k e)) (pt (smul k v)) (scalar t) ≡ ok (answer_proof t h)
      unfolding prove
      prove-ok t h hashed =
          rw (mul-pt e t, mul-pt v t, mul-pt u t, hashed, mul-scalar, add-scalar) refl

      prove_run :
          (t h : Residue) (rng rng' : lib.Rng)
          → random_nonzero rng ≡ ok (scalar t, rng')
          → hash_to_cfrag_verification (transcript t) ≡ ok (scalar h)
          → from_kfrag_and_cfrag capsule kfrag (pt (smul k e)) (pt (smul k v)) rng
            ≡ ok (answer_proof t h, rng')
      unfolding from_kfrag_and_cfrag
      prove_run t h rng rng' drawn hashed =
          run_bind random_nonzero _ drawn ∙ rw (prove-ok t h hashed) refl

      pub reencrypted_run :
          (t h : Residue) (rng rng' : lib.Rng)
          → random_nonzero rng ≡ ok (scalar t, rng')
          → hash_to_cfrag_verification (transcript t) ≡ ok (scalar h)
          → reencrypted capsule kfrag rng ≡ ok (answer t h, rng')
      unfolding reencrypted
      reencrypted_run t h rng rng' drawn hashed =
          run_lift _ (mul-pt e k)
          ∙ run_lift _ (mul-pt v k)
          ∙ run_bind (from_kfrag_and_cfrag capsule kfrag (pt (smul k e)) (pt (smul k v))) _
              (prove_run t h rng rng' drawn hashed)

      module _ (verifying_pk delegating_pk receiving_pk : PublicKey) (message : Bytes)
          (written : kfrag_signature_message id
              (pt (smul k u))
              precursor
              (some delegating_pk)
              (some receiving_pk)
            ≡ ok message)
          (signed : Signing.verify receiver verifying_pk message ≡ ok true) where
        verify-answer :
            (t h : Residue)
            → hash_to_cfrag_verification (transcript t) ≡ ok (scalar h)
            → verify (answer t h) capsule verifying_pk delegating_pk receiving_pk
              ≡ ok (record { cfrag = answer t h })
        unfolding verify
        verify-answer t h hashed =
            rw
              (
                hashed,
                written,
                signed,
                check_part-ok e k t h,
                check_part-ok v k t h,
                check_part-ok u k t h,
              )
              refl

        -- Whatever is drawn, re-encryption with a fragment of the key succeeds, and its result
        -- passes `verify`, if the fragment's signature for the receiver verifies.
        pub verify-reencrypted :
            ⦃random : RandomLaws⦄ (rng : lib.Rng)
            → (cfrag : CapsuleFrag) × (rng' : lib.Rng) × (reencrypted capsule kfrag rng
                ≡ ok (cfrag, rng'))
              × (verify cfrag capsule verifying_pk delegating_pk receiving_pk
                  ≡ ok (record { cfrag = cfrag }))
        verify-reencrypted rng =
            let (t, rng', drawn, _) = random_nonzero_lem rng in
            let (h, hashed) = hash_to_cfrag_verification-scalar (transcript t) in
            (answer t h, rng', reencrypted_run t h rng rng' drawn hashed, verify-answer t h hashed)
