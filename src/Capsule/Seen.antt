-- ===== src/Capsule/Seen.antt =====
-- `==` between fragments, and whether the set of `open_reencrypted` holds one.
use nucypher_kms_umbral.Prelude.{
  ◌≡◌, refl, ◌⊎◌, inl, inr, ℤ, negsuc, ◌==ℤ◌, pos, List, [], ◌∷◌, ok, Result, true, false, Bool,
  arith, Bool-cases, and_then,
}
use nucypher_kms_umbral.Prelude.Bytes.{==b_iff}
use nucypher_kms_umbral.Backend.Interface.{Backend}
use nucypher_kms_umbral.Backend.Laws.{BignumLaws, CurveLaws}
use nucypher_kms_umbral.Openssl.Bignum.{bn_cmp}
use nucypher_kms_umbral.Openssl.Secp256k1.{secp256k1}
use nucypher_kms_umbral.CurveScalar.Defs as CurveScalar
use nucypher_kms_umbral.CurveScalar.Defs.{CurveScalar}
use nucypher_kms_umbral.CurvePoint.Defs as CurvePoint
use nucypher_kms_umbral.CurvePoint.Defs.{CurvePoint}
use nucypher_kms_umbral.CurvePoint.Arithmetic.{eq-pt_same}
use nucypher_kms_umbral.Signing.Defs.{signature_eq}
use nucypher_kms_umbral.KeyFrag.Id.{KeyFragId, id_eq}
use nucypher_kms_umbral.CapsuleFrag.Defs.{CapsuleFrag, cfrag_eq, cfrag_hash, proof_eq}
use nucypher_kms_umbral.Capsule.Open.{is_seen}
use nucypher_kms_umbral.Capsule.Collected.{eq_total}

module _ ⦃lib : Backend⦄ ⦃bignum : BignumLaws⦄ ⦃curve : CurveLaws⦄ where
  -- A test that raises nothing.
  abbrev pub IsDecided : Result Bool → Type 0
  IsDecided r = (r ≡ ok true) ⊎ (r ≡ ok false)

  and_then-IsDecided : (r s : Result Bool) → IsDecided r → IsDecided s → IsDecided (and_then r s)
  and_then-IsDecided r s (inl e) h = rw e h
  and_then-IsDecided r s (inr e) h = inr (rw e refl)

  ok-IsDecided : (t : Bool) → IsDecided (ok t)
  ok-IsDecided true = inl refl
  ok-IsDecided false = inr refl

  ruleset decided = (and_then-IsDecided, ok-IsDecided, eq_total)

  pub cfrag_eq-IsDecided : (c c' : CapsuleFrag) → IsDecided (cfrag_eq c c')
  unfolding cfrag_eq proof_eq
  cfrag_eq-IsDecided c c' = search decided depth 12

  scalar_eq_refl : (s : CurveScalar) → CurveScalar.eq s s ≡ true
  unfolding CurveScalar.eq bn_cmp
  scalar_eq_refl s = rw (← bignum.bn_of_int s.backend_bignum, bignum.cmp) (ground arith)

  id_eq_refl : (i : KeyFragId) → id_eq i i ≡ true
  unfolding id_eq
  id_eq_refl i = (==b_iff i.id i.id).1 refl

  point_eq_refl : (p : CurvePoint) → CurvePoint.eq p p ≡ ok true
  point_eq_refl p = eq-pt_same p.backend_point

  -- A fragment equals itself.
  pub cfrag_eq_refl : (c : CapsuleFrag) → cfrag_eq c c ≡ ok true
  unfolding cfrag_eq proof_eq signature_eq
  cfrag_eq_refl c = simp (point_eq_refl, id_eq_refl, scalar_eq_refl) refl

  -- The set holds the fragment, under its hash.
  abbrev pub Holds : CapsuleFrag → List (ℤ × CapsuleFrag) → Type 0
  Holds c [] = ⊥
  Holds c ((hash, other) ∷ seen) = ((other ≡ c) × (cfrag_hash c ≡ ok hash)) ⊎ Holds c seen

  pub is_seen-IsDecided :
      (c : CapsuleFrag) (hash : ℤ) (seen : List (ℤ × CapsuleFrag)) → IsDecided (is_seen c hash seen)
  unfolding is_seen
  is_seen-IsDecided c hash [] = inr refl
  is_seen-IsDecided c hash ((other_hash, other) ∷ seen) = elim (Bool-cases (hash ==ℤ other_hash)) [
    | inr e ↦ rw e (is_seen-IsDecided c hash seen)
    | inl e ↦ elim (cfrag_eq-IsDecided other c) [
      | inl f ↦ inl (rw (e, f) refl)
      | inr f ↦ rw (e, f) (is_seen-IsDecided c hash seen)
    ]
  ]

  pub hash_same : (hash : ℤ) → (hash ==ℤ hash) ≡ true
  hash_same (pos k) = ground arith
  hash_same (negsuc k) = ground arith

  pub is_seen-Holds :
      (c : CapsuleFrag) (hash : ℤ) (seen : List (ℤ × CapsuleFrag))
      → cfrag_hash c ≡ ok hash
      → Holds c seen
      → is_seen c hash seen ≡ ok true
  unfolding is_seen
  is_seen-Holds c hash [] e h = absurd h
  is_seen-Holds c hash ((other_hash, other) ∷ seen) e (inl (same, f)) =
      let hashes : other_hash ≡ hash = cc in rw (hashes, hash_same hash, same, cfrag_eq_refl c) refl
  is_seen-Holds c hash ((other_hash, other) ∷ seen) e (inr h) =
      elim (Bool-cases (hash ==ℤ other_hash)) [
        | inr f ↦ rw f (is_seen-Holds c hash seen e h)
        | inl f ↦ elim (cfrag_eq-IsDecided other c) [
          | inl f' ↦ rw (f, f') refl
          | inr f' ↦ rw (f, f') (is_seen-Holds c hash seen e h)
        ]
      ]
