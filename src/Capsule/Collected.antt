-- ===== src/Capsule/Collected.antt =====
-- The set of fragments in `open_reencrypted`: fragments of different ids are different.
use nucypher_kms_umbral.Prelude.{
  ℤ, ◌==ℤ◌, ◌+◌, ◌≡◌, ◌≢◌, refl, sym, ap, ◌∙◌, ◌⊎◌, inl, inr, List, [], ◌∷◌, ◌++◌, ok, true, false,
  length, All, arith, Bool-cases,
}
use nucypher_kms_umbral.Prelude.Bytes.{b, Bytes, ◌==b◌, ==b_iff}
use nucypher_kms_umbral.Backend.Interface.{Backend}
use nucypher_kms_umbral.Backend.Laws.{BignumLaws, CurveLaws, EncodingLaws}
use nucypher_kms_umbral.Openssl.Secp256k1.{secp256k1}
use nucypher_kms_umbral.CurvePoint.Defs.{CurvePoint, eq, point_serial}
use nucypher_kms_umbral.CurvePoint.Arithmetic.{pt, eq-pt_same, eq-pt_differ, point_dec, to_bytes-pt}
use nucypher_kms_umbral.KeyFrag.Id.{KeyFragId, id_eq, id_serial}
use nucypher_kms_umbral.CapsuleFrag.Defs.{
  cfrag_hash, CapsuleFrag, cfrag_bytes, cfrag_eq, proof_bytes, proof_serial,
}
use nucypher_kms_umbral.Capsule.Open.{is_seen, collect_set, all_share}

module _ ⦃lib : Backend⦄ ⦃bignum : BignumLaws⦄ ⦃curve : CurveLaws⦄ where
  -- `==` between points raises nothing.
  pub eq_total : (p q : CurvePoint) → (eq p q ≡ ok true) ⊎ (eq p q ≡ ok false)
  eq_total p q = elim (point_dec p.backend_point q.backend_point) [
    | inl e ↦ inl (ap (λ t. eq p (pt t)) (sym e) ∙ eq-pt_same p.backend_point)
    | inr h ↦ inr (eq-pt_differ p.backend_point q.backend_point h)
  ]

  id_eq-differ : (i j : KeyFragId) → i ≢ j → id_eq i j ≡ false
  unfolding id_eq
  id_eq-differ i j h = elim (Bool-cases (i.id ==b j.id)) [
    | inl e ↦ absurd (h (ap (λ (bs : Bytes). record { id = bs }) ((==b_iff _ _).0 e)))
    | inr e ↦ e
  ]

  -- Fragments of different ids are different.
  pub cfrag_eq-differ : (c c' : CapsuleFrag) → c.kfrag_id ≢ c'.kfrag_id → cfrag_eq c c' ≡ ok false
  unfolding cfrag_eq
  cfrag_eq-differ c c' h = elim (eq_total c.point_e1 c'.point_e1) [
    | inr e ↦ rw e refl
    | inl e ↦ elim (eq_total c.point_v1 c'.point_v1) [
      | inr e' ↦ rw (e, e') refl
      | inl e' ↦ rw (e, e', id_eq-differ c.kfrag_id c'.kfrag_id h) refl
    ]
  ]

  is_seen-fresh :
      (cfrag : CapsuleFrag) (hash : ℤ) (seen : List (ℤ × CapsuleFrag))
      → All (λ m. m.1.kfrag_id ≢ cfrag.kfrag_id) seen
      → is_seen cfrag hash seen ≡ ok false
  unfolding is_seen
  is_seen-fresh cfrag hash [] h = refl
  is_seen-fresh cfrag hash ((other_hash, other) ∷ seen) (ne, h) =
      elim (Bool-cases (hash ==ℤ other_hash)) [
        | inl e ↦ rw (e, cfrag_eq-differ other cfrag ne) (is_seen-fresh cfrag hash seen h)
        | inr e ↦ rw e (is_seen-fresh cfrag hash seen h)
      ]

  abbrev pub DistinctIds : List CapsuleFrag → Type 0
  DistinctIds [] = Unit
  DistinctIds (c ∷ cfrags) = All (λ t. c.kfrag_id ≢ t.kfrag_id) cfrags × DistinctIds cfrags

  abbrev pub Writable : CapsuleFrag → Type 0
  Writable c = (bs : Bytes) × (cfrag_bytes c ≡ ok bs)

  -- `hash` of a fragment with the given bytes.
  abbrev pub hash_from : Bytes → ℤ
  hash_from bs = lib.hash_of (b "CapsuleFrag") bs

  pub cfrag_hash-ok : (c : CapsuleFrag) (w : Writable c) → cfrag_hash c ≡ ok (hash_from w.0)
  unfolding cfrag_hash
  cfrag_hash-ok c (bs, e) = rw e refl

  -- A fragment can be written if its proof can.
  pub proof_bytes-Writable :
      ⦃encoding : EncodingLaws⦄ (c : CapsuleFrag) (bs : Bytes)
      → proof_bytes c.proof ≡ ok bs
      → Writable c
  unfolding cfrag_bytes point_serial id_serial proof_serial
  proof_bytes-Writable c bs e =
      let (e1, e1_bytes) = to_bytes-pt c.point_e1.backend_point in
      let (v1, v1_bytes) = to_bytes-pt c.point_v1.backend_point in
      let (precursor, precursor_bytes) = to_bytes-pt c.precursor.backend_point in
      (
        e1 ++ (v1 ++ (c.kfrag_id.id ++ (precursor ++ (bs ++ [])))),
        rw (e1_bytes, v1_bytes, precursor_bytes, e) refl,
      )

  -- The members of the set, for fragments that are not in it.
  pub members :
      List (ℤ × CapsuleFrag)
      → (cfrags : List CapsuleFrag) → All Writable cfrags
      → List (ℤ × CapsuleFrag)
  members seen [] w = seen
  members seen (c ∷ cfrags) (written, w) = members ((hash_from written.0, c) ∷ seen) cfrags w

  pub collect_set-distinct :
      (seen : List (ℤ × CapsuleFrag)) (cfrags : List CapsuleFrag) (w : All Writable cfrags)
      → DistinctIds cfrags
      → All (λ m. All (λ c. m.1.kfrag_id ≢ c.kfrag_id) cfrags) seen
      → collect_set seen cfrags ≡ ok (members seen cfrags w)
  unfolding collect_set members
  collect_set-distinct seen [] w d fresh = refl
  collect_set-distinct seen (c ∷ cfrags) (written, w) (new, d) fresh =
      rw (cfrag_hash-ok c written, is_seen-fresh c (hash_from written.0) seen (heads seen fresh))
        (collect_set-distinct ((hash_from written.0, c) ∷ seen) cfrags w d (new, tails seen fresh))
    where
      heads :
          (l : List (ℤ × CapsuleFrag))
          → All (λ m. All (λ t. m.1.kfrag_id ≢ t.kfrag_id) (c ∷ cfrags)) l
          → All (λ m. m.1.kfrag_id ≢ c.kfrag_id) l
      heads [] h = tt
      heads (m ∷ l) ((ne, _), h) = (ne, heads l h)

      tails :
          (l : List (ℤ × CapsuleFrag))
          → All (λ m. All (λ t. m.1.kfrag_id ≢ t.kfrag_id) (c ∷ cfrags)) l
          → All (λ m. All (λ t. m.1.kfrag_id ≢ t.kfrag_id) cfrags) l
      tails [] h = tt
      tails (m ∷ l) ((_, ne), h) = (ne, tails l h)

  pub length-members :
      (seen : List (ℤ × CapsuleFrag)) (cfrags : List CapsuleFrag) (w : All Writable cfrags)
      → length (members seen cfrags w) ≡ length cfrags + length seen
  unfolding members
  length-members seen [] w = omega arith
  length-members seen (c ∷ cfrags) (written, w) =
      omega (arith, length-members ((hash_from written.0, c) ∷ seen) cfrags w)

  pub all_share-same :
      (q : lib.Point) (cfrags : List CapsuleFrag)
      → All (λ (c : CapsuleFrag). c.precursor ≡ pt q) cfrags
      → all_share (pt q) cfrags ≡ ok true
  unfolding all_share
  all_share-same q [] h = refl
  all_share-same q (c ∷ cfrags) (e, h) = rw (e, eq-pt_same q) (all_share-same q cfrags h)
