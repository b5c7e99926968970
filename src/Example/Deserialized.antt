-- ===== src/Example/Deserialized.antt =====
-- The test vectors on fragments of the key deserialize and verify, as their file says.
use nucypher_kms_umbral.Prelude.{
  ℕ, suc, ◌≡◌, ◌≢◌, refl, sym, ap, ◌∙◌, pos, Bool, some, List, [], ◌∷◌, map, length, ok, All,
  traverse,
}
use mathlib.Core.Path.{subst}
use nucypher_kms_umbral.Prelude.Bytes.{Bytes, hex}
use nucypher_kms_umbral.Prelude.Residue.{Residue, zero_r}
use nucypher_kms_umbral.Backend.Interface.{Backend}
use nucypher_kms_umbral.Backend.Laws.{BignumLaws, CurveLaws, EncodingLaws, RandomLaws, EcdsaLaws}
use nucypher_kms_umbral.Openssl.Secp256k1.{secp256k1, scalar_modulus}
use nucypher_kms_umbral.Serializable.Defs.{from_bytes}
use nucypher_kms_umbral.Serializable.RoundTrip.{RoundTrips, from_bytes-written}
use nucypher_kms_umbral.CurvePoint.Arithmetic.{pt, smul}
use nucypher_kms_umbral.CurveScalar.Arithmetic.{scalar}
use nucypher_kms_umbral.Hashing.ToPoint.{Parameters}
use nucypher_kms_umbral.Hashing.Message.{NotIdentity}
use nucypher_kms_umbral.Keys.Pairs.{public_of, key_of}
use nucypher_kms_umbral.Signing.Defs.{Signature}
use nucypher_kms_umbral.Signing.RoundTrip.{signature-RoundTrips}
use nucypher_kms_umbral.Capsule.Reencrypted.{share_value}
use nucypher_kms_umbral.KeyFrag.Id.{KeyFragId, id_size}
use nucypher_kms_umbral.KeyFrag.Defs.{
  KeyFrag, VerifiedKeyFrag, kfrag_serial, verified_kfrag_bytes, verify,
}
use nucypher_kms_umbral.KeyFrag.RoundTrip.{proof-RoundTrips, kfrag-RoundTrips}
use nucypher_kms_umbral.CapsuleFrag.Accepted.{key_frag}
use nucypher_kms_umbral.Pre.Defs.{generate_kfrags}
use nucypher_kms_umbral.Pre.Generated.{IsShare, as_verified, length-IsShare, generate-Generated}
use nucypher_kms_umbral.Example.Vectors.{kfrag_vector, kfrag_vectors}

module _ ⦃lib : Backend⦄ ⦃bignum : BignumLaws⦄ ⦃curve : CurveLaws⦄ ⦃encoding : EncodingLaws⦄
    ⦃params : Parameters⦄ where
  open curve use {generator as g}

  -- Neither point is the identity, which is written in fewer bytes.
  abbrev pub HasNoIdentity : KeyFrag → Type 0
  HasNoIdentity k = NotIdentity k.precursor × NotIdentity k.proof.commitment

  made-RoundTrips :
      (id : KeyFragId) (key : Residue) (q : lib.Point) (x y r s : Residue)
      (d_signed r_signed : Bool)
      → length id.id ≡ id_size
      → HasNoIdentity (
          key_frag id key
            (pt q)
            (record { r = scalar x; s = scalar y })
            (record { r = scalar r; s = scalar s })
            d_signed
            r_signed)
      → RoundTrips kfrag_serial (
          key_frag id key
            (pt q)
            (record { r = scalar x; s = scalar y })
            (record { r = scalar r; s = scalar s })
            d_signed
            r_signed)
  made-RoundTrips id key q x y r s d_signed r_signed size (pre, u1) =
      kfrag-RoundTrips id.id key q _ size pre (
        proof-RoundTrips (smul key params.u.backend_point) (record { r = scalar x; s = scalar y })
          (record { r = scalar r; s = scalar s }) d_signed r_signed u1 (signature-RoundTrips x y)
          (signature-RoundTrips r s))

  kfrag_vector-ok :
      (k : VerifiedKeyFrag) (a b s : Residue) (h : RoundTrips kfrag_serial k.kfrag)
      → verify k.kfrag (public_of s) (some (public_of a)) (some (public_of b)) ≡ ok k
      → kfrag_vector (public_of s) (public_of a) (public_of b) k ≡ ok (hex h.encoding)
  unfolding kfrag_vector verified_kfrag_bytes kfrag_serial
  kfrag_vector-ok k a b s h accepted =
      rw (h.written, from_bytes-written kfrag_serial k.kfrag h, accepted, h.written) refl

  module _ ⦃random : RandomLaws⦄ ⦃ecdsa : EcdsaLaws⦄ (a b s t d : Residue) (coeffs : List Residue)
      (d_signed r_signed : Bool) where
    share-RoundTrips :
        (k : KeyFrag)
        → IsShare a b s t d coeffs d_signed r_signed k
        → HasNoIdentity k
        → RoundTrips kfrag_serial k
    share-RoundTrips k share regular =
        let (x, y, proxy) = share.proxy_scalars in
        let key = share_value a d coeffs share.x in
        let receiver : Signature = record { r = scalar share.r; s = scalar share.s } in
        let same =
          share.shape
          ∙ ap
              (λ (p : Signature).
                key_frag share.id key (pt (smul t g)) p receiver d_signed r_signed)
              proxy in
        subst (RoundTrips kfrag_serial) (sym same) (
          made-RoundTrips share.id key (smul t g) x y share.r share.s d_signed r_signed
            (length-IsShare a b s t d coeffs d_signed r_signed k share)
            (subst HasNoIdentity same regular))

    vectors-ok :
        (kfrags : List KeyFrag)
        → All (IsShare a b s t d coeffs d_signed r_signed) kfrags
        → All HasNoIdentity kfrags
        → (encodings : List Bytes) × (kfrag_vectors
              (public_of s)
              (public_of a)
              (public_of b)
              (map as_verified kfrags)
            ≡ ok (map hex encodings))
          × (traverse (from_bytes kfrag_serial) encodings ≡ ok kfrags)
    unfolding kfrag_vectors traverse
    vectors-ok [] shares regular = ([], refl, refl)
    vectors-ok (k ∷ kfrags) (share, shares) (h, hs) =
        let round = share-RoundTrips k share h in
        let (encodings, vectors, reread) = vectors-ok kfrags shares hs in
        (
          round.encoding ∷ encodings,
          rw (kfrag_vector-ok (as_verified k) a b s round share.accepted, vectors) refl,
          rw (from_bytes-written kfrag_serial k round, reread) refl,
        )

  unverified :
      ⦃random : RandomLaws⦄ ⦃ecdsa : EcdsaLaws⦄ (kfrags : List KeyFrag)
      → All (λ (k : VerifiedKeyFrag). HasNoIdentity k.kfrag) (map as_verified kfrags)
      → All HasNoIdentity kfrags
  unverified [] h = tt
  unverified (k ∷ kfrags) (r, h) = (r, unverified kfrags h)

  -- The vectors of the fragments that `generate_kfrags` returned for a signer whose key is not zero
  -- are made, if no point in the fragments is the identity: every fragment is read back from its
  -- bytes and passes `verify` with the three keys, and the vectors are the bytes in hexadecimal,
  -- which deserialize to the fragments.
  pub kfrag_vectors-generate_kfrags :
      ⦃random : RandomLaws⦄ ⦃ecdsa : EcdsaLaws⦄ (a b s : Residue) (n m fuel : ℕ)
      (d_signed r_signed : Bool)
      → s ≢ zero_r
      → (rng : lib.Rng) {rng' : lib.Rng} (vkfrags : List VerifiedKeyFrag)
      → generate_kfrags fuel
          (key_of a)
          (public_of b)
          (record { secret_key = key_of s })
          (pos (suc n))
          (pos m)
          d_signed
          r_signed
          rng
        ≡ ok (vkfrags, rng')
      → All (λ (k : VerifiedKeyFrag). HasNoIdentity k.kfrag) vkfrags
      → (encodings : List Bytes) × (kfrag_vectors (public_of s) (public_of a) (public_of b) vkfrags
          ≡ ok (map hex encodings))
        × (traverse (from_bytes kfrag_serial) encodings
            ≡ ok (map (λ (k : VerifiedKeyFrag). k.kfrag) vkfrags))
  kfrag_vectors-generate_kfrags a b s n m fuel d_signed r_signed signs rng vkfrags made regular =
      let (t, d, coeffs, kfrags, same, _, _, _, _, shares) =
        generate-Generated a b s n m fuel d_signed r_signed signs rng made in
      let (encodings, vectors, reread) =
        vectors-ok a b s t d coeffs d_signed r_signed kfrags shares (
          unverified kfrags
            (subst (All (λ (k : VerifiedKeyFrag). HasNoIdentity k.kfrag)) same regular)) in
      (
        encodings,
        ap (kfrag_vectors (public_of s) (public_of a) (public_of b)) same ∙ vectors,
        reread ∙ ap ok (sym (ap (map (λ (k : VerifiedKeyFrag). k.kfrag)) same ∙ plain kfrags)),
      )
    where
      plain : (l : List KeyFrag) → map (λ (k : VerifiedKeyFrag). k.kfrag) (map as_verified l) ≡ l
      plain [] = refl
      plain (k ∷ l) = ap (◌∷◌ k) (plain l)
