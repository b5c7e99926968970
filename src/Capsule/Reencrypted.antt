-- ===== src/Capsule/Reencrypted.antt =====
-- The delegate's key opens a capsule from enough re-encrypted fragments.
use nucypher_kms_umbral.Prelude.{
  ◌≤◌, ◌≡◌, ◌≢◌, refl, sym, ap, ap₂, ◌∙◌, List, ◌∷◌, map, ok, length, traverse,
}
use nucypher_kms_umbral.Prelude.Residue.{
  Residue, ◌⊕◌, ◌⊗◌, zero_r, one_r, one-⊗, ⊕_comm, ⊗_comm, ⊗_assoc, ⊗-⊕,
}
use nucypher_kms_umbral.Backend.Interface.{Backend}
use nucypher_kms_umbral.Backend.Laws.{BignumLaws, CurveLaws, EncodingLaws}
use nucypher_kms_umbral.Openssl.Secp256k1.{secp256k1, scalar_modulus}
use nucypher_kms_umbral.CurveScalar.Arithmetic.{
  scalar, mul-scalar, inverse_r, invert-scalar, inverse_r-⊗,
}
use nucypher_kms_umbral.CurvePoint.Arithmetic.{
  pt, smul, mul-pt, add-pt, eq-pt_same, smul-⊕, smul-⊗, smul-plus,
}
use nucypher_kms_umbral.Keys.Pairs.{public_of, key_of}
use nucypher_kms_umbral.Hashing.Defs.{hash_to_polynomial_arg, hash_to_shared_secret}
use nucypher_kms_umbral.Scheme.Lagrange.{Distinct, combine, poly_value}
use nucypher_kms_umbral.Scheme.AtZero.{combine-poly_value}
use nucypher_kms_umbral.CapsuleFrag.Defs.{CapsuleFrag}
use nucypher_kms_umbral.Capsule.Open.{unblind, open_consistent}
use nucypher_kms_umbral.Capsule.Combine.{
  difference_inverse, difference_inverse-IsInverse, sum_points-shares, AreShares, weighted-shares,
}
use nucypher_kms_umbral.Capsule.Original.{capsule_of, IsCapsuleHash, shared_key}

module _ ⦃lib : Backend⦄ ⦃bignum : BignumLaws⦄ ⦃curve : CurveLaws⦄ ⦃encoding : EncodingLaws⦄ where
  open curve use {plus, generator as g}

  -- The owner's key over the secret that is shared with the delegate.
  abbrev pub quotient : Residue → Residue → Residue
  quotient a d = a ⊗ inverse_r d

  -- The value of the generating polynomial, whose constant coefficient is the quotient.
  abbrev pub share_value : Residue → Residue → List Residue → Residue → Residue
  share_value a d coeffs = poly_value (quotient a d ∷ coeffs)

  module _ (a d r u h : Residue) where
    -- The equation that `unblind` checks holds for the capsule's own points.
    validation :
        smul ((u ⊕ r ⊗ h) ⊗ inverse_r d) (smul a g)
        ≡ plus (smul h (smul (quotient a d) (smul r g))) (smul (quotient a d) (smul u g))
    validation =
        sym (smul-⊗ _ a g)
        ∙ ap (λ t. smul t g) scalars
        ∙ smul-⊕ _ _ g
        ∙ ap₂ plus (smul-⊗ h _ g ∙ ap (smul h) (smul-⊗ (quotient a d) r g))
            (smul-⊗ (quotient a d) u g)
      where
        scalars : (u ⊕ r ⊗ h) ⊗ inverse_r d ⊗ a ≡ h ⊗ (quotient a d ⊗ r) ⊕ quotient a d ⊗ u
        scalars =
            ⊗_assoc _ _ a
            ∙ ap (◌⊗◌ (u ⊕ r ⊗ h)) (⊗_comm _ a)
            ∙ ⊗_comm _ _
            ∙ ⊗-⊕ (quotient a d) u (r ⊗ h)
            ∙ ⊕_comm _ _
            ∙ ap (λ t. t ⊕ quotient a d ⊗ u) (sym (⊗_assoc _ r h) ∙ ⊗_comm _ h)

    recovered :
        d ≢ zero_r
        → smul d (plus (smul (quotient a d) (smul r g)) (smul (quotient a d) (smul u g)))
          ≡ smul a (plus (smul r g) (smul u g))
    recovered nonzero =
        ap (smul d) (sym (smul-plus (quotient a d) _ _))
        ∙ sym (smul-⊗ d (quotient a d) _)
        ∙ ap (λ t. smul t (plus (smul r g) (smul u g)))
            (⊗_comm d _
              ∙ ⊗_assoc a _ d
              ∙ ap (◌⊗◌ a) (inverse_r-⊗ d nonzero)
              ∙ ⊗_comm a one_r
              ∙ one-⊗ a)

    unblind-ok :
        IsCapsuleHash r u h
        → d ≢ zero_r
        → unblind
            (capsule_of r u h)
            (public_of a)
            (pt (smul (quotient a d) (smul r g)))
            (pt (smul (quotient a d) (smul u g)))
            (scalar d)
          ≡ ok (shared_key a r u)
    unfolding unblind
    unblind-ok hashed nonzero =
        rw
          (
            hashed,
            invert-scalar d nonzero,
            mul-scalar,
            mul-pt,
            mul-pt,
            add-pt,
            validation,
            eq-pt_same,
            add-pt,
            mul-pt,
            recovered nonzero,
          )
          refl

    module _ (b : Residue) (q : lib.Point) (cfrags : List CapsuleFrag) (coeffs : List Residue)
        (x : Residue) (xs : List Residue) where
      -- The indices of the fragments, as the delegate `b` recomputes them.
      abbrev pub Indices : Type 0
      Indices =
          traverse
            (λ (cfrag : CapsuleFrag).
              hash_to_polynomial_arg (pt q) (pt (smul b g)) (pt (smul b q)) cfrag.kfrag_id)
            cfrags
          ≡ ok (map scalar (x ∷ xs))

      -- Fragments that carry the shares at distinct indices, as many as the threshold at least,
      -- open a capsule of the owner `a` for the delegate `b` to the key that was encapsulated.
      pub open_consistent-shares :
          IsCapsuleHash r u h
          → d ≢ zero_r
          → hash_to_shared_secret (pt q) (pt (smul b g)) (pt (smul b q)) ≡ ok (scalar d)
          → Indices
          → Distinct (x ∷ xs)
          → length coeffs ≤ length xs
          → AreShares (share_value a d coeffs) (smul r g) (smul u g) cfrags (x ∷ xs)
          → open_consistent (capsule_of r u h) (key_of b) (public_of a) (pt q) cfrags
            ≡ ok (shared_key a r u)
      unfolding open_consistent
      open_consistent-shares hashed nonzero secret indices distinct enough carried =
          rw
            (
              mul-pt q b,
              indices,
              weighted-shares (share_value a d coeffs) (smul r g) (smul u g) (x ∷ xs) cfrags
                  distinct carried,
              sum_points-shares,
              sum_points-shares,
              reconstructed,
              secret,
            )
            (unblind-ok hashed nonzero)
        where
          reconstructed :
              combine difference_inverse (x ∷ xs) (share_value a d coeffs) ≡ quotient a d
          reconstructed =
              combine-poly_value difference_inverse difference_inverse-IsInverse (quotient a d)
                coeffs x xs distinct enough
