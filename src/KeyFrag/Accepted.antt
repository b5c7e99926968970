-- ===== src/KeyFrag/Accepted.antt =====
-- A fragment of the key that `from_base` makes passes `verify`.
use nucypher_kms_umbral.Prelude.{
  ◌≡◌, ◌≢◌, refl, ap, length, ◌∙◌, ◌&&◌, Bool, true, false, some, ok, List, ◌∷◌, map,
}
use nucypher_kms_umbral.Prelude.Bytes.{Bytes}
use nucypher_kms_umbral.Prelude.Residue.{Residue, zero_r}
use nucypher_kms_umbral.Backend.Interface.{Backend}
use nucypher_kms_umbral.Backend.Laws.{BignumLaws, CurveLaws, EncodingLaws, RandomLaws, EcdsaLaws}
use nucypher_kms_umbral.Backend.Random.{run_bind, run_lift}
use nucypher_kms_umbral.Openssl.Secp256k1.{secp256k1, scalar_modulus}
use nucypher_kms_umbral.CurveScalar.Arithmetic.{scalar}
use nucypher_kms_umbral.CurvePoint.Defs.{CurvePoint}
use nucypher_kms_umbral.CurvePoint.Arithmetic.{pt, smul, mul-pt, eq-pt_same}
use nucypher_kms_umbral.Hashing.Defs.{hash_to_polynomial_arg, kfrag_signature_message}
use nucypher_kms_umbral.Hashing.ToPoint.{Parameters}
use nucypher_kms_umbral.Hashing.Total.{hash_to_polynomial_arg-scalar, kfrag_signature_message-ok}
use nucypher_kms_umbral.Keys.Defs.{PublicKey}
use nucypher_kms_umbral.Keys.Pairs.{public_of, key_of}
use nucypher_kms_umbral.Signing.Defs as Signing
use nucypher_kms_umbral.Signing.Defs.{Signer, Signature}
use nucypher_kms_umbral.Signing.Accepted.{verify-sign}
use nucypher_kms_umbral.Scheme.Lagrange.{poly_value}
use nucypher_kms_umbral.KeyFrag.Id.{KeyFragId, random_id, id_size}
use nucypher_kms_umbral.KeyFrag.Defs.{KeyFrag, KeyFragProof, verify, given_if, is_none}
use nucypher_kms_umbral.KeyFrag.Generate.{KeyFragBase, key_share, proof_from_base, kfrag_from_base}
use nucypher_kms_umbral.KeyFrag.Polynomial.{poly_eval-scalar}

module _ ⦃lib : Backend⦄ ⦃bignum : BignumLaws⦄ ⦃curve : CurveLaws⦄ ⦃encoding : EncodingLaws⦄
    ⦃ecdsa : EcdsaLaws⦄ ⦃params : Parameters⦄ where
  abbrev u : lib.Point
  u = params.u.backend_point

  -- The base of the signer `a`, with the coefficients of the generating polynomial.
  module _ (a c : Residue) (cs : List Residue) (precursor dh_point : CurvePoint)
      (delegating_pk receiving_pk : PublicKey) (sign_delegating_key sign_receiving_key : Bool) where
    abbrev base : KeyFragBase
    base = record {
      signer = record { secret_key = key_of a };
      precursor = precursor;
      dh_point = dh_point;
      delegating_pk = delegating_pk;
      receiving_pk = receiving_pk;
      coefficients = map scalar (c ∷ cs);
    }

    key_share-ok :
        (id : KeyFragId) (x : Residue)
        → hash_to_polynomial_arg precursor receiving_pk.point_key dh_point id ≡ ok (scalar x)
        → key_share base id ≡ ok (scalar (poly_value (c ∷ cs) x))
    unfolding key_share
    key_share-ok id x e = rw e (poly_eval-scalar (c ∷ cs) x (λ q. cc))

    abbrev proof_of : Residue → Signature → Signature → KeyFragProof
    proof_of k proxy receiver = record {
      commitment = pt (smul k u);
      signature_for_proxy = proxy;
      signature_for_receiver = receiver;
      delegating_key_signed = sign_delegating_key;
      receiving_key_signed = sign_receiving_key;
    }

    abbrev kfrag_of : KeyFragId → Residue → Signature → Signature → KeyFrag
    kfrag_of id k proxy receiver = record {
      id = id;
      key = scalar k;
      precursor = precursor;
      proof = proof_of k proxy receiver;
    }

    -- The message for the receiver, and the message for the proxy.
    abbrev ForReceiver : KeyFragId → Residue → Bytes → Type 0
    ForReceiver id k message =
        kfrag_signature_message id (pt (smul k u)) precursor (some delegating_pk)
          (some receiving_pk)
        ≡ ok message

    abbrev ForProxy : KeyFragId → Residue → Bytes → Type 0
    ForProxy id k message =
        kfrag_signature_message id (pt (smul k u)) precursor
          (given_if sign_delegating_key (some delegating_pk))
          (given_if sign_receiving_key (some receiving_pk))
        ≡ ok message

    proof_run :
        (id : KeyFragId) (k : Residue) {m₁ m₂ : Bytes} {s₁ s₂ : Signature} (rng : lib.Rng)
        {rng₁ rng₂ : lib.Rng}
        → ForReceiver id k m₁
        → Signing.sign (record { secret_key = key_of a }) m₁ rng ≡ ok (s₁, rng₁)
        → ForProxy id k m₂
        → Signing.sign (record { secret_key = key_of a }) m₂ rng₁ ≡ ok (s₂, rng₂)
        → proof_from_base base id (scalar k) sign_delegating_key sign_receiving_key rng
          ≡ ok (proof_of k s₂ s₁, rng₂)
    unfolding proof_from_base
    proof_run id k {m₁} {m₂} {s₁} {s₂} rng {rng₁} {rng₂} w₁ e₁ w₂ e₂ =
        run_lift _ (mul-pt u k)
        ∙ run_lift _ w₁
        ∙ run_bind (Signing.sign (record { secret_key = key_of a }) m₁) _ e₁
        ∙ run_lift _ w₂
        ∙ run_bind (Signing.sign (record { secret_key = key_of a }) m₂) _ e₂

    kfrag_run :
        (rng : lib.Rng) (x : Residue) {s₁ s₂ : Signature} {rng₂ : lib.Rng}
        → hash_to_polynomial_arg precursor receiving_pk.point_key dh_point
            (record { id = (lib.urandom id_size rng).0 })
          ≡ ok (scalar x)
        → proof_from_base base
            (record { id = (lib.urandom id_size rng).0 })
            (scalar (poly_value (c ∷ cs) x))
            sign_delegating_key
            sign_receiving_key
            (lib.urandom id_size rng).1
          ≡ ok (proof_of (poly_value (c ∷ cs) x) s₂ s₁, rng₂)
        → kfrag_from_base base sign_delegating_key sign_receiving_key rng
          ≡ ok (
            kfrag_of (record { id = (lib.urandom id_size rng).0 }) (poly_value (c ∷ cs) x) s₂ s₁,
            rng₂,
          )
    unfolding kfrag_from_base random_id
    kfrag_run rng x indexed proved =
        run_lift _ (key_share-ok (record { id = (lib.urandom id_size rng).0 }) x indexed)
        ∙ run_bind
            (proof_from_base base (record { id = (lib.urandom id_size rng).0 })
              (scalar (poly_value (c ∷ cs) x)) sign_delegating_key sign_receiving_key)
            _ proved

    given : (flag : Bool) → (flag && is_none (some delegating_pk)) ≡ false
    given true = refl
    given false = refl

    verify-kfrag :
        (id : KeyFragId) (k : Residue) (proxy receiver : Signature) {message : Bytes}
        → ForProxy id k message
        → Signing.verify proxy (public_of a) message ≡ ok true
        → verify
            (kfrag_of id k proxy receiver)
            (public_of a)
            (some delegating_pk)
            (some receiving_pk)
          ≡ ok (record { kfrag = kfrag_of id k proxy receiver })
    unfolding verify
    verify-kfrag id k proxy receiver written signed =
        rw
          (
            mul-pt u k,
            eq-pt_same,
            given sign_delegating_key,
            given sign_receiving_key,
            written,
            signed,
          )
          refl

    -- A fragment with the share at the index of its id, whose signatures verify.
    pub record Made (kfrag : KeyFrag) : Type 0 where
      pub id : KeyFragId
      pub drawn : (rng : lib.Rng) × (id ≡ record { id = (lib.urandom id_size rng).0 })
      pub x : Residue
      pub proxy : Signature
      pub proxy_scalars :
          (x' : Residue) × (y' : Residue) × (proxy ≡ record { r = scalar x'; s = scalar y' })
      pub r : Residue
      pub s : Residue
      pub message : Bytes
      pub shape :
          kfrag ≡ kfrag_of id (poly_value (c ∷ cs) x) proxy (record { r = scalar r; s = scalar s })
      pub indexed :
          hash_to_polynomial_arg precursor receiving_pk.point_key dh_point id ≡ ok (scalar x)
      pub accepted :
          verify kfrag (public_of a) (some delegating_pk) (some receiving_pk)
          ≡ ok (record { kfrag = kfrag })
      pub written : ForReceiver id (poly_value (c ∷ cs) x) message
      pub signed :
          Signing.verify (record { r = scalar r; s = scalar s }) (public_of a) message ≡ ok true

    module _ ⦃random : RandomLaws⦄ where
      pub length-Made : (kfrag : KeyFrag) (made : Made kfrag) → length made.id.id ≡ id_size
      length-Made kfrag made =
          ap (λ (i : KeyFragId). length i.id) made.drawn.1
          ∙ random.urandom_length id_size made.drawn.0

    pub kfrag_from_base-Made :
        a ≢ zero_r
        → (rng : lib.Rng)
        → (kfrag : KeyFrag) × (rng' : lib.Rng) × (kfrag_from_base base sign_delegating_key
              sign_receiving_key rng
            ≡ ok (kfrag, rng'))
          × Made kfrag
    kfrag_from_base-Made nonzero rng =
        let id : KeyFragId = record { id = (lib.urandom id_size rng).0 } in
        let (x, indexed) =
          hash_to_polynomial_arg-scalar precursor receiving_pk.point_key dh_point id in
        let k = poly_value (c ∷ cs) x in
        let (m₁, w₁) =
          kfrag_signature_message-ok id (pt (smul k u)) precursor (some delegating_pk)
            (some receiving_pk) in
        let (r₁, s₁, rng₁, e₁, valid₁, _) = verify-sign a m₁ (lib.urandom id_size rng).1 nonzero in
        let (m₂, w₂) =
          kfrag_signature_message-ok id (pt (smul k u)) precursor
            (given_if sign_delegating_key (some delegating_pk))
            (given_if sign_receiving_key (some receiving_pk)) in
        let (r₂, s₂, rng₂, e₂, valid₂, _) = verify-sign a m₂ rng₁ nonzero in
        let receiver : Signature = record { r = scalar r₁; s = scalar s₁ } in
        let proxy : Signature = record { r = scalar r₂; s = scalar s₂ } in
        (
          kfrag_of id k proxy receiver,
          rng₂,
          kfrag_run rng x indexed (proof_run id k (lib.urandom id_size rng).1 w₁ e₁ w₂ e₂),
          record {
            id = id;
            drawn = (rng, refl);
            x = x;
            proxy = proxy;
            proxy_scalars = (r₂, s₂, refl);
            r = r₁;
            s = s₁;
            message = m₁;
            shape = refl;
            indexed = indexed;
            accepted = verify-kfrag id k proxy receiver w₂ valid₂;
            written = w₁;
            signed = valid₁;
          },
        )

    -- Whatever is drawn, `from_base` with a signer of a key other than zero and at least one
    -- coefficient succeeds, and `verify` with both keys accepts the fragment, whichever are signed.
    pub verify-kfrag_from_base :
        a ≢ zero_r
        → (rng : lib.Rng)
        → (kfrag : KeyFrag) × (rng' : lib.Rng) × (kfrag_from_base base sign_delegating_key
              sign_receiving_key rng
            ≡ ok (kfrag, rng'))
          × (verify kfrag (public_of a) (some delegating_pk) (some receiving_pk)
              ≡ ok (record { kfrag = kfrag }))
    verify-kfrag_from_base nonzero rng =
        let (kfrag, rng', run, made) = kfrag_from_base-Made nonzero rng in
        (kfrag, rng', run, made.accepted)
