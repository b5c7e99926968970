-- ===== src/Capsule/Members.antt =====
-- `==` between fragments is equality.
use nucypher_kms_umbral.Prelude.{
  ◌≡◌, refl, sym, ap, ap₂, ◌∙◌, inl, inr, ◌&&◌, Bool, true, false, ℤ, pos, negsuc, ◌==ℤ◌, cmp_ℤ,
  Result, ok, err, out_of_fuel, and_then, arith,
}
use nucypher_kms_umbral.Prelude.Bytes.{Bytes, ==b_iff}
use nucypher_kms_umbral.Backend.Interface.{Backend}
use nucypher_kms_umbral.Backend.Laws.{BignumLaws, CurveLaws}
use nucypher_kms_umbral.Openssl.Secp256k1.{secp256k1}
use nucypher_kms_umbral.Openssl.Bignum.{bn_cmp}
use nucypher_kms_umbral.CurveScalar.Defs as CurveScalar
use nucypher_kms_umbral.CurveScalar.Defs.{CurveScalar}
use nucypher_kms_umbral.CurvePoint.Defs as CurvePoint
use nucypher_kms_umbral.CurvePoint.Defs.{CurvePoint}
use nucypher_kms_umbral.CurvePoint.Arithmetic.{pt, eq-pt_differ, point_dec}
use nucypher_kms_umbral.Signing.Defs.{Signature, signature_eq}
use nucypher_kms_umbral.KeyFrag.Id.{KeyFragId, id_eq}
use nucypher_kms_umbral.CapsuleFrag.Defs.{CapsuleFrag, CapsuleFragProof, cfrag_eq, proof_eq}

and_then-true : (r s : Result Bool) → and_then r s ≡ ok true → (r ≡ ok true) × (s ≡ ok true)
and_then-true (ok true) s e = (refl, e)
and_then-true (ok false) s e = cc
and_then-true (err x) s e = cc
and_then-true out_of_fuel s e = cc

ok_value : {s t : Bool} → ok s ≡ ok t → s ≡ t
ok_value e = cc

both_true : (s t : Bool) → (s && t) ≡ true → (s ≡ true) × (t ≡ true)
both_true true t e = (refl, e)
both_true false t e = cc

module _ ⦃lib : Backend⦄ ⦃bignum : BignumLaws⦄ ⦃curve : CurveLaws⦄ where
  point_same : {p q : CurvePoint} → CurvePoint.eq p q ≡ ok true → p ≡ q
  point_same {p} {q} e = elim (point_dec p.backend_point q.backend_point) [
    | inl same ↦ ap pt same
    | inr ne ↦ absurd (cc (eq-pt_differ p.backend_point q.backend_point ne, e))
  ]

  cmp_same : (x y : ℤ) → (cmp_ℤ x y ==ℤ pos 0) ≡ true → x ≡ y
  cmp_same (pos x) (pos y) e = ap pos (same e)
    where
      same : (cmp_ℤ (pos x) (pos y) ==ℤ pos 0) ≡ true → x ≡ y
      same h = ground arith
  cmp_same (pos x) (negsuc y) e = absurd (apart e)
    where
      apart : (cmp_ℤ (pos x) (negsuc y) ==ℤ pos 0) ≡ true → ⊥
      apart h = ground arith
  cmp_same (negsuc x) (pos y) e = absurd (apart e)
    where
      apart : (cmp_ℤ (negsuc x) (pos y) ==ℤ pos 0) ≡ true → ⊥
      apart h = ground arith
  cmp_same (negsuc x) (negsuc y) e = ap negsuc (same e)
    where
      same : (cmp_ℤ (negsuc x) (negsuc y) ==ℤ pos 0) ≡ true → x ≡ y
      same h = ground arith

  scalar_same : {s t : CurveScalar} → CurveScalar.eq s t ≡ true → s ≡ t
  unfolding CurveScalar.eq bn_cmp
  scalar_same {s} {t} e = ap (λ n. record { backend_bignum = n }) same
    where
      value : lib.Bignum → ℤ
      value = lib.bn_to_int

      rebuilt :
          lib.bn_cmp (lib.bn_of (value s.backend_bignum)) (lib.bn_of (value t.backend_bignum))
          ≡ lib.bn_cmp s.backend_bignum t.backend_bignum
      rebuilt =
          ap₂ lib.bn_cmp (bignum.bn_of_int s.backend_bignum) (bignum.bn_of_int t.backend_bignum)

      compared : (cmp_ℤ (value s.backend_bignum) (value t.backend_bignum) ==ℤ pos 0) ≡ true
      compared =
          ap (λ n. n ==ℤ pos 0)
            (sym (bignum.cmp (value s.backend_bignum) (value t.backend_bignum)) ∙ rebuilt)
          ∙ e

      same : s.backend_bignum ≡ t.backend_bignum
      same =
          sym (bignum.bn_of_int s.backend_bignum)
          ∙ ap lib.bn_of (cmp_same _ _ compared)
          ∙ bignum.bn_of_int t.backend_bignum

  signature_same : (s t : Signature) → signature_eq s t ≡ true → s ≡ t
  unfolding signature_eq
  signature_same s t e =
      let (r, h) = both_true _ _ e in
      ap₂ (λ x y. record { r = x; s = y }) (scalar_same r) (scalar_same h)

  id_same : (i j : KeyFragId) → id_eq i j ≡ true → i ≡ j
  unfolding id_eq
  id_same i j e = ap (λ (bs : Bytes). record { id = bs }) ((==b_iff i.id j.id).0 e)

  proof_same : (p q : CapsuleFragProof) → proof_eq p q ≡ ok true → p ≡ q
  unfolding proof_eq
  proof_same p q e =
      let (e2, rest) = and_then-true _ _ e in
      let (v2, rest') = and_then-true _ _ rest in
      let (u1, rest'') = and_then-true _ _ rest' in
      let (u2, scalars) = and_then-true _ _ rest'' in
      let (z, s) = both_true _ _ (ok_value scalars) in
      made (point_same e2) (point_same v2) (point_same u1) (point_same u2) (scalar_same z)
        (signature_same p.kfrag_signature q.kfrag_signature s)
    where
      made :
          p.point_e2 ≡ q.point_e2
          → p.point_v2 ≡ q.point_v2
          → p.kfrag_commitment ≡ q.kfrag_commitment
          → p.kfrag_pok ≡ q.kfrag_pok
          → p.signature ≡ q.signature
          → p.kfrag_signature ≡ q.kfrag_signature
          → p ≡ q
      made a b c d f g i = record {
        point_e2 = a i;
        point_v2 = b i;
        kfrag_commitment = c i;
        kfrag_pok = d i;
        signature = f i;
        kfrag_signature = g i;
      }

  -- `==` between fragments is equality.
  pub cfrag_same : (c t : CapsuleFrag) → cfrag_eq c t ≡ ok true → c ≡ t
  unfolding cfrag_eq
  cfrag_same c t e =
      let (e1, rest) = and_then-true _ _ e in
      let (v1, rest') = and_then-true _ _ rest in
      let (id, rest'') = and_then-true _ _ rest' in
      let (q, proofs) = and_then-true _ _ rest'' in
      made (point_same e1) (point_same v1) (id_same c.kfrag_id t.kfrag_id (ok_value id))
        (point_same q) (proof_same c.proof t.proof proofs)
    where
      made :
          c.point_e1 ≡ t.point_e1
          → c.point_v1 ≡ t.point_v1
          → c.kfrag_id ≡ t.kfrag_id
          → c.precursor ≡ t.precursor
          → c.proof ≡ t.proof
          → c ≡ t
      made a b d f g i = record {
        point_e1 = a i;
        point_v1 = b i;
        kfrag_id = d i;
        precursor = f i;
        proof = g i;
      }
