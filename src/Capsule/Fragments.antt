-- ===== src/Capsule/Fragments.antt =====
-- `open_reencrypted` on the fragments that a quorum of proxies made of one capsule.
use nucypher_kms_umbral.Prelude.{
  ◌≤◌, ◌≡◌, ◌≢◌, ◌==◌, refl, sym, ap, ◌∙◌, List, [], ◌∷◌, map, ok, true, length, Result, traverse,
  All, arith, ◌==◌,
}
use nucypher_kms_umbral.Prelude.Residue.{Residue, zero_r}
use nucypher_kms_umbral.Backend.Interface.{Backend}
use nucypher_kms_umbral.Backend.Laws.{BignumLaws, CurveLaws, EncodingLaws}
use nucypher_kms_umbral.Openssl.Secp256k1.{secp256k1, scalar_modulus}
use nucypher_kms_umbral.CurveScalar.Defs as CurveScalar
use nucypher_kms_umbral.CurveScalar.Defs.{CurveScalar}
use nucypher_kms_umbral.CurveScalar.Arithmetic.{scalar, eq-scalar}
use nucypher_kms_umbral.CurvePoint.Arithmetic.{pt, smul}
use nucypher_kms_umbral.Keys.Pairs.{public_of, key_of}
use nucypher_kms_umbral.KeyFrag.Id.{KeyFragId}
use nucypher_kms_umbral.Hashing.Defs.{hash_to_polynomial_arg, hash_to_shared_secret}
use nucypher_kms_umbral.Scheme.Lagrange.{Distinct}
use nucypher_kms_umbral.CapsuleFrag.Defs.{CapsuleFrag}
use nucypher_kms_umbral.Capsule.Open.{all_share, open_consistent, open_reencrypted}
use nucypher_kms_umbral.Capsule.Combine.{AreShares}
use nucypher_kms_umbral.Capsule.Collected.{
  DistinctIds, Writable, members, collect_set-distinct, length-members, all_share-same,
}
use nucypher_kms_umbral.Capsule.Reencrypted.{share_value, open_consistent-shares}
use nucypher_kms_umbral.Capsule.Original.{capsule_of, IsCapsuleHash, shared_key}

module _ ⦃lib : Backend⦄ ⦃bignum : BignumLaws⦄ ⦃curve : CurveLaws⦄ ⦃encoding : EncodingLaws⦄ where
  open curve use {generator as g}

  pub scalar_injective : (x y : Residue) → scalar x ≡ scalar y → x ≡ y
  scalar_injective x y e =
      (eq-scalar x y).0 (ap (λ t. CurveScalar.eq (scalar x) t) (sym e) ∙ (eq-scalar x x).1 refl)

  module _ (a d r u b : Residue) (q : lib.Point) (coeffs : List Residue) where
    -- The index of an id, as the delegate `b` recomputes it.
    abbrev index_of : KeyFragId → Result CurveScalar
    index_of = hash_to_polynomial_arg (pt q) (pt (smul b g)) (pt (smul b q))

    -- The fragment carries the share at the index `x`.
    abbrev pub IsFragment : CapsuleFrag → Residue → Type 0
    IsFragment cfrag x =
        (hash_to_polynomial_arg (pt q) (pt (smul b g)) (pt (smul b q)) cfrag.kfrag_id
          ≡ ok (scalar x))
        × (cfrag.point_e1 ≡ pt (smul (share_value a d coeffs x) (smul r g)))
        × (cfrag.point_v1 ≡ pt (smul (share_value a d coeffs x) (smul u g)))
        × (cfrag.precursor ≡ pt q)
        × Writable cfrag

    abbrev pub Fragments : List CapsuleFrag → List Residue → Type 0
    Fragments [] [] = Unit
    Fragments [] (x ∷ xs) = ⊥
    Fragments (c ∷ cfrags) [] = ⊥
    Fragments (c ∷ cfrags) (x ∷ xs) = IsFragment c x × Fragments cfrags xs

    indices :
        (cfrags : List CapsuleFrag) (xs : List Residue)
        → Fragments cfrags xs
        → traverse (λ (c : CapsuleFrag). index_of c.kfrag_id) cfrags ≡ ok (map scalar xs)
    unfolding traverse
    indices [] [] h = refl
    indices [] (x ∷ xs) h = absurd h
    indices (c ∷ cfrags) [] h = absurd h
    indices (c ∷ cfrags) (x ∷ xs) ((e, _, _, _, _), h) = rw (e, indices cfrags xs h) refl

    carried :
        (cfrags : List CapsuleFrag) (xs : List Residue)
        → Fragments cfrags xs
        → AreShares (share_value a d coeffs) (smul r g) (smul u g) cfrags xs
    carried [] [] h = tt
    carried [] (x ∷ xs) h = h
    carried (c ∷ cfrags) [] h = h
    carried (c ∷ cfrags) (x ∷ xs) ((_, e, v, _, _), h) = ((e, v), carried cfrags xs h)

    writable :
        (cfrags : List CapsuleFrag) (xs : List Residue) → Fragments cfrags xs → All Writable cfrags
    writable [] xs h = tt
    writable (c ∷ cfrags) [] h = absurd h
    writable (c ∷ cfrags) (x ∷ xs) ((_, _, _, _, w), h) = (w, writable cfrags xs h)

    precursors :
        (cfrags : List CapsuleFrag) (xs : List Residue)
        → Fragments cfrags xs
        → All (λ (c : CapsuleFrag). c.precursor ≡ pt q) cfrags
    precursors [] xs h = tt
    precursors (c ∷ cfrags) [] h = absurd h
    precursors (c ∷ cfrags) (x ∷ xs) ((_, _, _, p, _), h) = (p, precursors cfrags xs h)

    -- Equal ids have equal indices.
    other_id :
        (c t : CapsuleFrag) (x y : Residue)
        → IsFragment c x
        → IsFragment t y
        → x ≢ y
        → c.kfrag_id ≢ t.kfrag_id
    other_id c t x y (e, _, _, _, _) (f, _, _, _, _) ne same =
        ne (scalar_injective x y (value (sym e ∙ ap index_of same ∙ f)))
      where
        value : {s t : CurveScalar} → ok s ≡ ok t → s ≡ t
        value p = cc

    distinct_ids :
        (cfrags : List CapsuleFrag) (xs : List Residue)
        → Fragments cfrags xs
        → Distinct xs
        → DistinctIds cfrags
    distinct_ids [] xs h d = tt
    distinct_ids (c ∷ cfrags) [] h d = absurd h
    distinct_ids (c ∷ cfrags) (x ∷ xs) (hc, h) (fresh, d) =
        (others cfrags xs h fresh, distinct_ids cfrags xs h d)
      where
        others :
            (l : List CapsuleFrag) (ys : List Residue)
            → Fragments l ys
            → All (λ y. x ≢ y) ys
            → All (λ t. c.kfrag_id ≢ t.kfrag_id) l
        others [] ys h ne = tt
        others (t ∷ l) [] h ne = absurd h
        others (t ∷ l) (y ∷ ys) (ht, h) (ne, nes) = (other_id c t x y hc ht ne, others l ys h nes)

    module _ (h : Residue) (hashed : IsCapsuleHash r u h) (nonzero : d ≢ zero_r) where
      -- Fragments of a capsule that the owner `a` delegated to `b`, with distinct indices and at
      -- least as many as the polynomial has coefficients, are accepted, and `b` opens the capsule
      -- with them to the key that was encapsulated.
      pub open_reencrypted-fragments :
          hash_to_shared_secret (pt q) (pt (smul b g)) (pt (smul b q)) ≡ ok (scalar d)
          → (c : CapsuleFrag) (cfrags : List CapsuleFrag) (x : Residue) (xs : List Residue)
          → Fragments (c ∷ cfrags) (x ∷ xs)
          → Distinct (x ∷ xs)
          → length coeffs ≤ length xs
          → open_reencrypted (capsule_of r u h) (key_of b) (public_of a) (c ∷ cfrags)
            ≡ ok (shared_key a r u)
      unfolding open_reencrypted
      open_reencrypted-fragments secret c cfrags x xs hs distinct enough =
          rw
            (
              collect_set-distinct [] (c ∷ cfrags) w
                  (distinct_ids (c ∷ cfrags) (x ∷ xs) hs distinct) tt,
              all_new,
              consistent,
            )
            (ap (λ t. open_consistent (capsule_of r u h) (key_of b) (public_of a) t (c ∷ cfrags))
                hs.0.3
              ∙ open_consistent-shares a d r u h b q (c ∷ cfrags) coeffs x xs hashed nonzero secret
                  (indices (c ∷ cfrags) (x ∷ xs) hs) distinct enough
                  (carried (c ∷ cfrags) (x ∷ xs) hs))
        where
          w : All Writable (c ∷ cfrags)
          w = writable (c ∷ cfrags) (x ∷ xs) hs

          consistent : all_share c.precursor cfrags ≡ ok true
          consistent =
              ap (λ t. all_share t cfrags) hs.0.3
              ∙ all_share-same q cfrags (precursors cfrags xs hs.1)

          all_new : (length (members [] (c ∷ cfrags) w) == length (c ∷ cfrags)) ≡ true
          all_new = let size = length-members [] (c ∷ cfrags) w in ground arith
