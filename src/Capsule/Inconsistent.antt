-- ===== src/Capsule/Inconsistent.antt =====
-- `open_reencrypted` refuses fragments that do not share the precursor of the first.
use nucypher_kms_umbral.Prelude.{
  ◌≡◌, ◌≢◌, refl, ap, ◌⊎◌, inl, inr, List, [], ◌∷◌, ok, err, value_error, true, false, length, ◌==◌,
  All, arith,
}
use nucypher_kms_umbral.Backend.Interface.{Backend}
use nucypher_kms_umbral.Backend.Laws.{BignumLaws, CurveLaws}
use nucypher_kms_umbral.Openssl.Secp256k1.{secp256k1}
use nucypher_kms_umbral.CurvePoint.Defs.{CurvePoint}
use nucypher_kms_umbral.CurvePoint.Arithmetic.{eq-pt_differ}
use nucypher_kms_umbral.Keys.Defs.{PublicKey, SecretKey}
use nucypher_kms_umbral.CapsuleFrag.Defs.{CapsuleFrag}
use nucypher_kms_umbral.Capsule.Defs.{Capsule}
use nucypher_kms_umbral.Capsule.Open.{all_share, open_reencrypted}
use nucypher_kms_umbral.Capsule.Collected.{
  eq_total, Writable, DistinctIds, members, collect_set-distinct, length-members,
}

module _ ⦃lib : Backend⦄ ⦃bignum : BignumLaws⦄ ⦃curve : CurveLaws⦄ where
  -- Some fragment has another precursor.
  abbrev pub HasOther : CurvePoint → List CapsuleFrag → Type 0
  HasOther p [] = ⊥
  HasOther p (c ∷ cfrags) = (c.precursor ≢ p) ⊎ HasOther p cfrags

  all_share-HasOther :
      (p : CurvePoint) (cfrags : List CapsuleFrag)
      → HasOther p cfrags
      → all_share p cfrags ≡ ok false
  unfolding all_share
  all_share-HasOther p [] h = absurd h
  all_share-HasOther p (c ∷ cfrags) (inl ne) =
      rw (eq-pt_differ c.precursor.backend_point p.backend_point (λ e. ne (ap made e))) refl
    where
      made : lib.Point → CurvePoint
      made q = record { backend_point = q }
  all_share-HasOther p (c ∷ cfrags) (inr h) = elim (eq_total c.precursor p) [
    | inl e ↦ rw e (all_share-HasOther p cfrags h)
    | inr e ↦ rw e refl
  ]

  module _ (capsule : Capsule) (receiving_sk : SecretKey) (delegating_pk : PublicKey)
      (first : CapsuleFrag) (others : List CapsuleFrag) where
    -- If the fragments have different ids and some fragment has another precursor than the first,
    -- `open_reencrypted` raises a ValueError, for any capsule and any keys, provided that the
    -- fragments can be written.
    pub open_reencrypted-inconsistent :
        All Writable (first ∷ others)
        → DistinctIds (first ∷ others)
        → HasOther first.precursor others
        → open_reencrypted capsule receiving_sk delegating_pk (first ∷ others)
          ≡ err (value_error "CapsuleFrags are not pairwise consistent")
    unfolding open_reencrypted
    open_reencrypted-inconsistent w distinct other =
        rw
          (
            collect_set-distinct [] (first ∷ others) w distinct tt,
            all_new,
            all_share-HasOther first.precursor others other,
          )
          refl
      where
        all_new : (length (members [] (first ∷ others) w) == length (first ∷ others)) ≡ true
        all_new = let size = length-members [] (first ∷ others) w in ground arith
