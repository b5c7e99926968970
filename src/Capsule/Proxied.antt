-- ===== src/Capsule/Proxied.antt =====
-- A proxy's answer carries the share of its fragment of the key.
use nucypher_kms_umbral.Prelude.{◌≡◌, refl, ok, Bool, List, [], ◌∷◌, ◌++◌}
use nucypher_kms_umbral.Prelude.Bytes.{Bytes}
use nucypher_kms_umbral.Prelude.Residue.{Residue, ◌⊕◌, ◌⊗◌}
use nucypher_kms_umbral.Backend.Interface.{Backend}
use nucypher_kms_umbral.Backend.Laws.{BignumLaws, CurveLaws, EncodingLaws, RandomLaws}
use nucypher_kms_umbral.Openssl.Secp256k1.{secp256k1, scalar_modulus}
use nucypher_kms_umbral.CurveScalar.Defs.{scalar_serial}
use nucypher_kms_umbral.CurveScalar.Arithmetic.{scalar, random_nonzero_lem}
use nucypher_kms_umbral.CurveScalar.RoundTrip.{scalar_bytes, to_bytes-scalar}
use nucypher_kms_umbral.CurvePoint.Defs.{point_serial}
use nucypher_kms_umbral.CurvePoint.Arithmetic.{pt, smul, to_bytes-pt}
use nucypher_kms_umbral.Hashing.Defs.{hash_to_polynomial_arg}
use nucypher_kms_umbral.Hashing.ToPoint.{Parameters}
use nucypher_kms_umbral.Hashing.Total.{hash_to_cfrag_verification-scalar}
use nucypher_kms_umbral.Signing.Defs.{Signature}
use nucypher_kms_umbral.Signing.RoundTrip.{signature-RoundTrips}
use nucypher_kms_umbral.KeyFrag.Id.{KeyFragId}
use nucypher_kms_umbral.CapsuleFrag.Defs.{CapsuleFrag, proof_bytes, reencrypted}
use nucypher_kms_umbral.CapsuleFrag.Accepted.{key_frag, answer, reencrypted_run}
use nucypher_kms_umbral.Capsule.Original.{capsule_of}
use nucypher_kms_umbral.Capsule.Reencrypted.{share_value}
use nucypher_kms_umbral.Capsule.Collected.{proof_bytes-Writable}
use nucypher_kms_umbral.Capsule.Fragments.{IsFragment}

module _ ⦃lib : Backend⦄ ⦃bignum : BignumLaws⦄ ⦃curve : CurveLaws⦄ ⦃encoding : EncodingLaws⦄
    ⦃params : Parameters⦄ where
  open curve use {generator as g}

  -- `bytes` of a proof with scalars below the order never fails.
  proof_bytes-ok :
      (e2 v2 commitment pok : lib.Point) (z r s : Residue)
      → (bs : Bytes) × (proof_bytes (record {
        point_e2 = pt e2;
        point_v2 = pt v2;
        kfrag_commitment = pt commitment;
        kfrag_pok = pt pok;
        signature = scalar z;
        kfrag_signature = record { r = scalar r; s = scalar s };
      })
          ≡ ok bs)
  unfolding proof_bytes point_serial scalar_serial
  proof_bytes-ok e2 v2 commitment pok z r s =
      let (b₁, w₁) = to_bytes-pt e2 in
      let (b₂, w₂) = to_bytes-pt v2 in
      let (b₃, w₃) = to_bytes-pt commitment in
      let (b₄, w₄) = to_bytes-pt pok in
      let signed = signature-RoundTrips r s in
      (
        b₁ ++ (b₂ ++ (b₃ ++ (b₄ ++ (scalar_bytes z ++ (signed.encoding ++ []))))),
        rw (w₁, w₂, w₃, w₄, to_bytes-scalar z, signed.written) refl,
      )

  module _ (a d r u h b : Residue) (q : lib.Point) (coeffs : List Residue) (id : KeyFragId)
      (x : Residue) (proxy : Signature) (r' s' : Residue)
      (delegating_key_signed receiving_key_signed : Bool) where
    -- Whatever is drawn, re-encryption of a capsule with the fragment of the key whose id has the
    -- index `x` succeeds, and gives a fragment that carries the share at `x`.
    pub reencrypted-IsFragment :
        ⦃random : RandomLaws⦄
        → hash_to_polynomial_arg (pt q) (pt (smul b g)) (pt (smul b q)) id ≡ ok (scalar x)
        → (rng : lib.Rng)
        → (cfrag : CapsuleFrag) × (rng' : lib.Rng) × (reencrypted
              (capsule_of r u h)
              (key_frag id
                (share_value a d coeffs x)
                (pt q)
                proxy
                (record { r = scalar r'; s = scalar s' })
                delegating_key_signed
                receiving_key_signed)
              rng
            ≡ ok (cfrag, rng'))
          × IsFragment a d r u b q coeffs cfrag x
    reencrypted-IsFragment indexed rng =
        let e = smul r g in
        let v = smul u g in
        let k = share_value a d coeffs x in
        let w = params.u.backend_point in
        let receiver : Signature = record { r = scalar r'; s = scalar s' } in
        let (t, rng', drawn, _) = random_nonzero_lem rng in
        let (h', hashed) = hash_to_cfrag_verification-scalar (
          pt e
          ∷ pt (smul k e)
          ∷ pt (smul t e)
          ∷ pt v
          ∷ pt (smul k v)
          ∷ pt (smul t v)
          ∷ pt w
          ∷ pt (smul k w)
          ∷ pt (smul t w)
          ∷ []) in
        let (bs, written) =
          proof_bytes-ok (smul t e) (smul t v) (smul k w) (smul t w) (t ⊕ k ⊗ h') r' s' in
        let cfrag =
          answer e v (scalar (u ⊕ r ⊗ h)) id k (pt q) proxy receiver delegating_key_signed
            receiving_key_signed t h' in
        (
          cfrag,
          rng',
          reencrypted_run e v (scalar (u ⊕ r ⊗ h)) id k (pt q) proxy receiver delegating_key_signed
              receiving_key_signed t h' rng rng' drawn hashed,
          (indexed, refl, refl, refl, proof_bytes-Writable cfrag bs written),
        )
