-- ===== src/Example/Reread.antt =====
-- The proxies' answers are written and read back.
use nucypher_kms_umbral.Prelude.{
  ◌≡◌, refl, ap, ◌∙◌, suc, Bool, List, [], ◌∷◌, map, length, ok, All, traverse,
}
use nucypher_kms_umbral.Prelude.Residue.{Residue, ◌⊕◌, ◌⊗◌}
use nucypher_kms_umbral.Backend.Interface.{Backend}
use nucypher_kms_umbral.Backend.Laws.{BignumLaws, CurveLaws, EncodingLaws, RandomLaws, EcdsaLaws}
use nucypher_kms_umbral.Backend.Random.{for_each, run_bind}
use nucypher_kms_umbral.Openssl.Secp256k1.{secp256k1, scalar_modulus}
use nucypher_kms_umbral.Serializable.RoundTrip.{RoundTrips, from_bytes-written}
use nucypher_kms_umbral.CurveScalar.Arithmetic.{scalar, random_nonzero_lem}
use nucypher_kms_umbral.CurvePoint.Arithmetic.{pt, smul}
use nucypher_kms_umbral.Hashing.ToPoint.{Parameters}
use nucypher_kms_umbral.Hashing.Total.{hash_to_cfrag_verification-scalar}
use nucypher_kms_umbral.Hashing.Message.{NotIdentity}
use nucypher_kms_umbral.Signing.Defs.{Signature}
use nucypher_kms_umbral.Signing.RoundTrip.{signature-RoundTrips}
use nucypher_kms_umbral.KeyFrag.Id.{KeyFragId, id_size}
use nucypher_kms_umbral.KeyFrag.Defs.{VerifiedKeyFrag}
use nucypher_kms_umbral.Capsule.Original.{capsule_of}
use nucypher_kms_umbral.Capsule.Reencrypted.{share_value}
use nucypher_kms_umbral.CapsuleFrag.Defs.{
  CapsuleFrag, cfrag_serial, reencrypted, verified_cfrag_bytes,
}
use nucypher_kms_umbral.CapsuleFrag.Accepted.{answer, reencrypted_run}
use nucypher_kms_umbral.CapsuleFrag.RoundTrip.{proof-RoundTrips, cfrag-RoundTrips}
use nucypher_kms_umbral.Pre.Defs.{SomeKeyFrag, reencrypt}
use nucypher_kms_umbral.Pre.Generated.{length-IsShare}
use nucypher_kms_umbral.Pre.Shares.{as_checked, Share}
use nucypher_kms_umbral.Example.Script.{reread}

module _ ⦃lib : Backend⦄ ⦃bignum : BignumLaws⦄ ⦃curve : CurveLaws⦄ ⦃encoding : EncodingLaws⦄ where
  open curve use {generator as g}

  -- None of the points is the identity, which is written in fewer bytes.
  abbrev pub NoIdentity : CapsuleFrag → Type 0
  NoIdentity c =
      NotIdentity c.point_e1
      × NotIdentity c.point_v1
      × NotIdentity c.precursor
      × NotIdentity c.proof.point_e2
      × NotIdentity c.proof.point_v2
      × NotIdentity c.proof.kfrag_commitment
      × NotIdentity c.proof.kfrag_pok

  reread-RoundTrips :
      (c : CapsuleFrag) → RoundTrips cfrag_serial c → reread (record { cfrag = c }) ≡ ok c
  unfolding reread verified_cfrag_bytes cfrag_serial
  reread-RoundTrips c h = rw h.written (from_bytes-written cfrag_serial c h)

  module _ ⦃params : Parameters⦄ where
    answer-RoundTrips :
        (e v q : lib.Point) (s : Residue) (id : KeyFragId) (k : Residue) (proxy : Signature)
        (r' s' : Residue) (delegating_key_signed receiving_key_signed : Bool) (t h : Residue)
        → length id.id ≡ id_size
        → NoIdentity (
            answer e v
              (scalar s)
              id
              k
              (pt q)
              proxy
              (record { r = scalar r'; s = scalar s' })
              delegating_key_signed
              receiving_key_signed
              t
              h)
        → RoundTrips cfrag_serial (
            answer e v
              (scalar s)
              id
              k
              (pt q)
              proxy
              (record { r = scalar r'; s = scalar s' })
              delegating_key_signed
              receiving_key_signed
              t
              h)
    answer-RoundTrips e v q s id k proxy r' s' delegating_key_signed receiving_key_signed t h size
          (e1, v1, pre, e2, v2, u1, u2) =
        let u = params.u.backend_point in
        cfrag-RoundTrips (smul k e) (smul k v) id.id q _ e1 v1 size pre (
          proof-RoundTrips (smul t e) (smul t v) (smul k u) (smul t u) (t ⊕ k ⊗ h)
            (record { r = scalar r'; s = scalar s' }) e2 v2 u1 u2 (signature-RoundTrips r' s'))

    module _ ⦃random : RandomLaws⦄ ⦃ecdsa : EcdsaLaws⦄ (a b s t d : Residue) (coeffs : List Residue)
        (sign_delegating_key sign_receiving_key : Bool) (r u h : Residue) where
      abbrev IsShared : VerifiedKeyFrag → Type 0
      IsShared = Share a b s t d coeffs sign_delegating_key sign_receiving_key

      abbrev Rereads : CapsuleFrag → Type 0
      Rereads c = NoIdentity c → reread (as_checked c) ≡ ok c

      answer_read :
          (k : VerifiedKeyFrag) (share : IsShared k) (rng : lib.Rng)
          → (c : CapsuleFrag) × (rng' : lib.Rng) × (reencrypt
                (capsule_of r u h)
                (SomeKeyFrag.verified k)
                rng
              ≡ ok (as_checked c, rng'))
            × Rereads c
      unfolding reencrypt
      answer_read k share rng =
          let e = smul r g in
          let v = smul u g in
          let q = smul t g in
          let w = params.u.backend_point in
          let key = share_value a d coeffs share.x in
          let receiver : Signature = record { r = scalar share.r; s = scalar share.s } in
          let (z, rng', drawn, _) = random_nonzero_lem rng in
          let (challenge, hashed) = hash_to_cfrag_verification-scalar (
            pt e
            ∷ pt (smul key e)
            ∷ pt (smul z e)
            ∷ pt v
            ∷ pt (smul key v)
            ∷ pt (smul z v)
            ∷ pt w
            ∷ pt (smul key w)
            ∷ pt (smul z w)
            ∷ []) in
          let c =
            answer e v (scalar (u ⊕ r ⊗ h)) share.id key (pt q) share.proxy receiver
              sign_delegating_key sign_receiving_key z challenge in
          (
            c,
            rng',
            run_bind (reencrypted (capsule_of r u h) k.kfrag) _ (
                ap (λ kfrag. reencrypted (capsule_of r u h) kfrag rng) share.shape
                ∙ reencrypted_run e v (scalar (u ⊕ r ⊗ h)) share.id key (pt q) share.proxy receiver
                    sign_delegating_key sign_receiving_key z challenge rng rng' drawn hashed),
            λ regular. reread-RoundTrips c (
                answer-RoundTrips e v q (u ⊕ r ⊗ h) share.id key share.proxy share.r share.s
                  sign_delegating_key sign_receiving_key z challenge
                  (length-IsShare a b s t d coeffs sign_delegating_key sign_receiving_key k.kfrag
                    share)
                  regular),
          )

      pub each_read :
          (chosen : List VerifiedKeyFrag)
          → All (Share a b s t d coeffs sign_delegating_key sign_receiving_key) chosen
          → (rng : lib.Rng)
          → (cfrags : List CapsuleFrag) × (rng' : lib.Rng) × (for_each
                (λ k. reencrypt (capsule_of r u h) (SomeKeyFrag.verified k))
                chosen
                rng
              ≡ ok (map as_checked cfrags, rng'))
            × (length cfrags ≡ length chosen)
            × (All NoIdentity cfrags → traverse reread (map as_checked cfrags) ≡ ok cfrags)
      unfolding for_each traverse
      each_read [] shares rng = ([], rng, refl, refl, λ h. refl)
      each_read (k ∷ chosen) (share, shares) rng =
          let (c, rng₁, run, back) = answer_read k share rng in
          let (cfrags, rng₂, runs, size, backs) = each_read chosen shares rng₁ in
          (
            c ∷ cfrags,
            rng₂,
            run_bind (reencrypt (capsule_of r u h) (SomeKeyFrag.verified k)) _ run
                ∙ run_bind
                    (for_each (λ x. reencrypt (capsule_of r u h) (SomeKeyFrag.verified x)) chosen) _
                    runs,
            ap suc size,
            λ h. rw (back h.0, backs h.1) refl,
          )
