-- ===== src/CurvePoint/Arithmetic.antt =====
-- The operations of `CurvePoint` are those of a group in which scalars act: sums, products and
-- the test for equality never fail, and the residues act as on a vector space.
use nucypher_kms_umbral.Prelude.{
  ℕ, zero, suc, ◌+◌, ◌*◌, ◌/◌, ◌%◌, ◌≡◌, ◌≢◌, ◌⊎◌, inl, inr, refl, sym, ap, ap₂, ◌∙◌, true, false,
  ok, arith, [], ◌∷◌,
}
use nucypher_kms_umbral.Prelude.Bytes.{Bytes}
use nucypher_kms_umbral.Prelude.Residue.{Residue, ◌⊕◌, ◌⊗◌, zero_r, one_r, residue}
use nucypher_kms_umbral.Backend.Interface.{Backend}
use nucypher_kms_umbral.Backend.Laws.{BignumLaws, CurveLaws, EncodingLaws}
use nucypher_kms_umbral.Openssl.Secp256k1.{secp256k1, scalar_modulus}
use nucypher_kms_umbral.CurveScalar.Arithmetic.{scalar}
use nucypher_kms_umbral.CurvePoint.Defs.{CurvePoint, mul, add, eq, to_bytes}
use native.Mathlib.Nat.{div-add-mod, mul_comm}

module _ ⦃lib : Backend⦄ ⦃bignum : BignumLaws⦄ ⦃curve : CurveLaws⦄ where
  open curve use {
    plus, identity, times, plus_assoc, plus_comm, plus_identity, times_zero, times_suc,
  }

  abbrev pub pt : lib.Point → CurvePoint
  pt p = record { backend_point = p }

  pub times-add : (a c : ℕ) (p : lib.Point) → times (a + c) p ≡ plus (times a p) (times c p)
  times-add zero c p =
      ap (λ (k : ℕ). times k p) (omega arith)
      ∙ sym (plus_identity (times c p))
      ∙ ap (λ q. plus q (times c p)) (sym (times_zero p))
  times-add (suc a) c p =
      ap (λ (k : ℕ). times k p) (omega arith)
      ∙ times_suc (a + c) p
      ∙ ap (plus p) (times-add a c p)
      ∙ sym (plus_assoc p (times a p) (times c p))
      ∙ ap (λ q. plus q (times c p)) (sym (times_suc a p))

  pub times-mul : (a c : ℕ) (p : lib.Point) → times (a * c) p ≡ times a (times c p)
  times-mul zero c p =
      ap (λ (k : ℕ). times k p) (omega arith) ∙ times_zero p ∙ sym (times_zero (times c p))
  times-mul (suc a) c p =
      ap (λ (k : ℕ). times k p) (omega arith)
      ∙ times-add c (a * c) p
      ∙ ap (plus (times c p)) (times-mul a c p)
      ∙ sym (times_suc a (times c p))

  interchange : (p q r s : lib.Point) → plus (plus p q) (plus r s) ≡ plus (plus p r) (plus q s)
  interchange p q r s =
      plus_assoc p q (plus r s)
      ∙ ap (plus p) (sym (plus_assoc q r s) ∙ ap (λ t. plus t s) (plus_comm q r) ∙ plus_assoc r q s)
      ∙ sym (plus_assoc p r (plus q s))

  times-plus : (a : ℕ) (p q : lib.Point) → times a (plus p q) ≡ plus (times a p) (times a q)
  times-plus zero p q =
      times_zero (plus p q)
      ∙ sym (plus_identity identity)
      ∙ ap₂ plus (sym (times_zero p)) (sym (times_zero q))
  times-plus (suc a) p q =
      times_suc a (plus p q)
      ∙ ap (plus (plus p q)) (times-plus a p q)
      ∙ interchange p q (times a p) (times a q)
      ∙ ap₂ plus (sym (times_suc a p)) (sym (times_suc a q))

  times-identity : (a : ℕ) → times a identity ≡ identity
  times-identity zero = times_zero identity
  times-identity (suc a) =
      times_suc a identity ∙ plus_identity (times a identity) ∙ times-identity a

  -- Multiples of the order vanish.
  times-mod : (a : ℕ) (p : lib.Point) → times (a % curve.order) p ≡ times a p
  times-mod a p =
      sym (plus_identity _)
      ∙ ap (λ q. plus q (times (a % curve.order) p))
          (sym (times-identity (a / curve.order))
            ∙ ap (times (a / curve.order)) (sym (curve.times_order p))
            ∙ sym (times-mul (a / curve.order) curve.order p))
      ∙ sym (times-add (a / curve.order * curve.order) (a % curve.order) p)
      ∙ ap (λ (k : ℕ). times k p) whole
    where
      whole : a / curve.order * curve.order + a % curve.order ≡ a
      whole = omega (arith, div-add-mod a curve.order, mul_comm (a / curve.order) curve.order)

  -- The action of a residue on a point.
  unfoldable pub smul : Residue → lib.Point → lib.Point
  smul a p = times a.0 p

  pub smul-⊕ : (a c : Residue) (p : lib.Point) → smul (a ⊕ c) p ≡ plus (smul a p) (smul c p)
  unfolding smul ◌⊕◌ residue
  smul-⊕ a c p = times-mod (a.0 + c.0) p ∙ times-add a.0 c.0 p

  pub smul-⊗ : (a c : Residue) (p : lib.Point) → smul (a ⊗ c) p ≡ smul a (smul c p)
  unfolding smul ◌⊗◌ residue
  smul-⊗ a c p = times-mod (a.0 * c.0) p ∙ times-mul a.0 c.0 p

  pub smul-plus : (a : Residue) (p q : lib.Point) → smul a (plus p q) ≡ plus (smul a p) (smul a q)
  unfolding smul
  smul-plus a p q = times-plus a.0 p q

  pub smul-zero : (p : lib.Point) → smul zero_r p ≡ identity
  unfolding smul zero_r residue
  smul-zero p = times-mod 0 p ∙ times_zero p

  pub smul-one : (p : lib.Point) → smul one_r p ≡ p
  unfolding smul one_r residue
  smul-one p =
      times-mod 1 p
      ∙ times_suc 0 p
      ∙ ap (plus p) (times_zero p)
      ∙ plus_comm p identity
      ∙ plus_identity p

  pub mul-pt : (p : lib.Point) (a : Residue) → mul (pt p) (scalar a) ≡ ok (pt (smul a p))
  unfolding mul smul
  mul-pt p a = rw (curve.mul p a.0)

  pub add-pt : (p q : lib.Point) → add (pt p) (pt q) ≡ ok (pt (plus p q))
  unfolding add
  add-pt p q = rw (curve.add p q)

  pub eq-pt_same : (p : lib.Point) → eq (pt p) (pt p) ≡ ok true
  unfolding eq
  eq-pt_same p = elim (curve.cmp p p) [ inl (e, h) ↦ rw e | inr (e, h) ↦ absurd (h refl) ]

  pub eq-pt_differ : (p q : lib.Point) → p ≢ q → eq (pt p) (pt q) ≡ ok false
  unfolding eq
  eq-pt_differ p q ne = elim (curve.cmp p q) [ inl (e, h) ↦ absurd (ne h) | inr (e, h) ↦ rw e ]

  pub point_dec : (p q : lib.Point) → (p ≡ q) ⊎ (p ≢ q)
  point_dec p q = elim (curve.cmp p q) [ inl (e, h) ↦ inl h | inr (e, h) ↦ inr h ]

  -- `bytes` of a point never fails.
  pub to_bytes-pt :
      ⦃encoding : EncodingLaws⦄ (p : lib.Point) → (bs : Bytes) × (to_bytes (pt p) ≡ ok bs)
  unfolding to_bytes
  to_bytes-pt ⦃encoding⦄ p = elim (point_dec p identity) [
    | inl e ↦ (0 ∷ [], rw (e, ← encoding.size_of_degree, encoding.point2oct_identity))
    | inr h ↦
        let written = encoding.point2oct p h in
        (written.0, rw (← encoding.size_of_degree, written.1))
  ]
