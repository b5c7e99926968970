-- ===== src/Pre/Shares.antt =====
-- The proxies' answers to fragments of the key.
use nucypher_kms_umbral.Prelude.{
  suc, ◌≡◌, ◌≢◌, refl, sym, ap, ◌∙◌, ◌⊎◌, inl, inr, Bool, List, [], ◌∷◌, map, length, ok, Result,
  All,
}
use mathlib.Core.Path.{subst}
use nucypher_kms_umbral.Prelude.Residue.{Residue}
use nucypher_kms_umbral.Backend.Interface.{Backend}
use nucypher_kms_umbral.Backend.Laws.{BignumLaws, CurveLaws, EncodingLaws, RandomLaws, EcdsaLaws}
use nucypher_kms_umbral.Backend.Random.{for_each, run_bind}
use nucypher_kms_umbral.Openssl.Secp256k1.{secp256k1, scalar_modulus}
use nucypher_kms_umbral.CurveScalar.Defs.{CurveScalar}
use nucypher_kms_umbral.CurveScalar.Arithmetic.{scalar}
use nucypher_kms_umbral.CurvePoint.Arithmetic.{pt, smul}
use nucypher_kms_umbral.Keys.Pairs.{public_of}
use nucypher_kms_umbral.Hashing.Defs.{hash_to_polynomial_arg}
use nucypher_kms_umbral.Hashing.ToPoint.{Parameters}
use nucypher_kms_umbral.Scheme.Lagrange.{Distinct}
use nucypher_kms_umbral.Capsule.Original.{capsule_of}
use nucypher_kms_umbral.Capsule.Fragments.{IsFragment, Fragments}
use nucypher_kms_umbral.Capsule.Proxied.{reencrypted-IsFragment}
use nucypher_kms_umbral.KeyFrag.Defs.{KeyFrag, VerifiedKeyFrag}
use nucypher_kms_umbral.CapsuleFrag.Defs.{CapsuleFrag, VerifiedCapsuleFrag, reencrypted, verify}
use nucypher_kms_umbral.CapsuleFrag.Accepted.{verify-reencrypted}
use nucypher_kms_umbral.Pre.Defs.{SomeKeyFrag, reencrypt}
use nucypher_kms_umbral.Pre.Generated.{IsShare, as_verified}

module _ ⦃lib : Backend⦄ ⦃bignum : BignumLaws⦄ ⦃curve : CurveLaws⦄ ⦃encoding : EncodingLaws⦄
    ⦃random : RandomLaws⦄ ⦃ecdsa : EcdsaLaws⦄ ⦃params : Parameters⦄ where
  open curve use {generator as g}

  -- The index of a fragment of the key, as the delegate `b` computes it.
  abbrev pub kfrag_index : Residue → KeyFrag → Result CurveScalar
  kfrag_index b kfrag =
      hash_to_polynomial_arg kfrag.precursor (pt (smul b g))
        (pt (smul b kfrag.precursor.backend_point)) kfrag.id

  -- The fragments have pairwise different indices.
  abbrev pub DistinctIndices : Residue → List VerifiedKeyFrag → Type 0
  DistinctIndices b [] = Unit
  DistinctIndices b (k ∷ vkfrags) =
      All (λ (t : VerifiedKeyFrag). kfrag_index b k.kfrag ≢ kfrag_index b t.kfrag) vkfrags
      × DistinctIndices b vkfrags

  abbrev pub as_checked : CapsuleFrag → VerifiedCapsuleFrag
  as_checked cfrag = record { cfrag = cfrag }

  abbrev pub Among : VerifiedKeyFrag → List VerifiedKeyFrag → Type 0
  Among k [] = ⊥
  Among k (t ∷ vkfrags) = (t ≡ k) ⊎ Among k vkfrags

  module _ (a b s t d : Residue) (coeffs : List Residue)
      (sign_delegating_key sign_receiving_key : Bool) where
    abbrev pub Share : VerifiedKeyFrag → Type 0
    Share k = IsShare a b s t d coeffs sign_delegating_key sign_receiving_key k.kfrag

    Share-Among :
        (k : VerifiedKeyFrag) (kfrags : List KeyFrag)
        → All (IsShare a b s t d coeffs sign_delegating_key sign_receiving_key) kfrags
        → Among k (map as_verified kfrags)
        → Share k
    Share-Among k [] h o = absurd o
    Share-Among k (c ∷ kfrags) (share, h) (inl same) = subst Share same share
    Share-Among k (c ∷ kfrags) (share, h) (inr o) = Share-Among k kfrags h o

    pub shares-Among :
        (chosen : List VerifiedKeyFrag) (kfrags : List KeyFrag)
        → All (IsShare a b s t d coeffs sign_delegating_key sign_receiving_key) kfrags
        → All (λ k. Among k (map as_verified kfrags)) chosen
        → All Share chosen
    shares-Among [] kfrags h o = tt
    shares-Among (k ∷ chosen) kfrags h (o, os) =
        (Share-Among k kfrags h o, shares-Among chosen kfrags h os)

    unfoldable pub xs_of : (chosen : List VerifiedKeyFrag) → All Share chosen → List Residue
    xs_of [] h = []
    xs_of (k ∷ chosen) (share, h) = share.x ∷ xs_of chosen h

    index-Share : (k : VerifiedKeyFrag) (h : Share k) → kfrag_index b k.kfrag ≡ ok (scalar h.x)
    index-Share k h = ap (kfrag_index b) h.shape ∙ h.indexed

    pub xs_of-Distinct :
        (chosen : List VerifiedKeyFrag) (h : All Share chosen)
        → DistinctIndices b chosen
        → Distinct (xs_of chosen h)
    unfolding xs_of
    xs_of-Distinct [] h d = tt
    xs_of-Distinct (k ∷ chosen) (share, h) (fresh, d) =
        (others chosen h fresh, xs_of-Distinct chosen h d)
      where
        others :
            (l : List VerifiedKeyFrag) (hl : All Share l)
            → All (λ (u : VerifiedKeyFrag). kfrag_index b k.kfrag ≢ kfrag_index b u.kfrag) l
            → All (λ y. share.x ≢ y) (xs_of l hl)
        others [] hl ne = tt
        others (u ∷ l) (hu, hl) (ne, nes) = (
          λ same. ne (index-Share k share ∙ ap (λ y. ok (scalar y)) same ∙ sym (index-Share u hu)),
          others l hl nes,
        )

    pub length-xs_of :
        (chosen : List VerifiedKeyFrag) (h : All Share chosen)
        → length (xs_of chosen h) ≡ length chosen
    unfolding xs_of
    length-xs_of [] h = refl
    length-xs_of (k ∷ chosen) (share, h) = ap suc (length-xs_of chosen h)

    module _ (r u h : Residue) where
      abbrev pub Verifies : CapsuleFrag → Type 0
      Verifies cfrag =
          verify cfrag (capsule_of r u h) (public_of s) (public_of a) (public_of b)
          ≡ ok (record { cfrag = cfrag })

      -- A proxy's answer to one fragment of the key.
      reencrypt-Share :
          (k : VerifiedKeyFrag) (share : Share k) (rng : lib.Rng)
          → (cfrag : CapsuleFrag) × (rng' : lib.Rng) × (reencrypt
                (capsule_of r u h)
                (SomeKeyFrag.verified k)
                rng
              ≡ ok (record { cfrag = cfrag }, rng'))
            × IsFragment a d r u b (smul t g) coeffs cfrag share.x
            × Verifies cfrag
      unfolding reencrypt
      reencrypt-Share k share rng =
          let (cfrag, rng', run, carries) =
            reencrypted-IsFragment a d r u h b (smul t g) coeffs share.id share.x share.proxy
              share.r share.s sign_delegating_key sign_receiving_key share.indexed rng in
          let (cfrag', rng'', run', valid) =
            verify-reencrypted (smul r g) (smul u g) (capsule_of r u h).signature share.id _
              (pt (smul t g)) share.proxy (record { r = scalar share.r; s = scalar share.s })
              sign_delegating_key sign_receiving_key (public_of s) (public_of a) (public_of b)
              share.message share.written share.signed rng in
          let same : cfrag' ≡ cfrag = cc (run, run') in
          (
            cfrag,
            rng',
            run_bind (reencrypted (capsule_of r u h) k.kfrag) _
                (ap (λ kfrag. reencrypted (capsule_of r u h) kfrag rng) share.shape ∙ run),
            carries,
            subst Verifies same valid,
          )

      -- What the proxies answer to the chosen fragments.
      pub reencrypt_each-Shares :
          (chosen : List VerifiedKeyFrag) (shares : All Share chosen) (rng : lib.Rng)
          → (cfrags : List CapsuleFrag) × (rng' : lib.Rng) × (for_each
                (λ k. reencrypt (capsule_of r u h) (SomeKeyFrag.verified k))
                chosen
                rng
              ≡ ok (map as_checked cfrags, rng'))
            × Fragments a d r u b (smul t g) coeffs cfrags (xs_of chosen shares)
            × All Verifies cfrags
      unfolding for_each xs_of
      reencrypt_each-Shares [] shares rng = ([], rng, refl, tt, tt)
      reencrypt_each-Shares (k ∷ chosen) (share, shares) rng =
          let (cfrag, rng₁, run, carries, valid) = reencrypt-Share k share rng in
          let (cfrags, rng₂, runs, carry, all_valid) = reencrypt_each-Shares chosen shares rng₁ in
          (
            cfrag ∷ cfrags,
            rng₂,
            run_bind (reencrypt (capsule_of r u h) (SomeKeyFrag.verified k)) _ run
                ∙ run_bind
                    (for_each (λ k. reencrypt (capsule_of r u h) (SomeKeyFrag.verified k)) chosen) _
                    runs,
            (carries, carry),
            (valid, all_valid),
          )
