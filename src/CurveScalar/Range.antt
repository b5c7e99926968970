-- ===== src/CurveScalar/Range.antt =====
-- The operators between a scalar and an int: the ints that they take, and what they give.
use nucypher_kms_umbral.Prelude.{
  ℕ, ◌<◌, ◌≤◌, ◌≡◌, refl, ap, Error, overflow_error, ◌⊎◌, inl, inr, ℤ, pos, negsuc, Bool-cases,
  true, false, ltb, Result, ok, err, value_error, arith,
}
use nucypher_kms_umbral.Prelude.Residue.{Residue, ◌⊕◌, ◌⊗◌}
use nucypher_kms_umbral.Backend.Interface.{Backend}
use nucypher_kms_umbral.Backend.Laws.{BignumLaws, CurveLaws}
use nucypher_kms_umbral.Openssl.Bignum.{bn_is_normalized}
use nucypher_kms_umbral.Openssl.Secp256k1.{secp256k1, scalar_modulus}
use nucypher_kms_umbral.CurveScalar.Defs.{CurveScalar, from_int}
use nucypher_kms_umbral.CurveScalar.Arithmetic.{scalar, mul-scalar, add-scalar, sub-scalar, minus}
use nucypher_kms_umbral.CurveScalar.Operand.{
  an_int, as_scalar, mul_operand, add_operand, sub_operand, eq_operand,
}

module _ ⦃lib : Backend⦄ ⦃bignum : BignumLaws⦄ ⦃curve : CurveLaws⦄ where
  normalized_cases :
      (n : ℕ)
      → ((n < curve.order)
          × (bn_is_normalized (lib.bn_of (pos n)) (lib.bn_of (pos curve.order)) ≡ true))
        ⊎ ((curve.order ≤ n)
            × (bn_is_normalized (lib.bn_of (pos n)) (lib.bn_of (pos curve.order)) ≡ false))
  unfolding bn_is_normalized
  normalized_cases n = elim (Bool-cases (ltb n curve.order)) [
    | inl e ↦ inl (
      ground arith,
      rw (bignum.cmp (pos n) (pos 0), bignum.cmp (pos n) (pos curve.order)) (ground arith),
    )
    | inr e ↦ inr (
      ground arith,
      rw (bignum.cmp (pos n) (pos 0), bignum.cmp (pos n) (pos curve.order)) (ground arith),
    )
  ]

  abbrev pub refused : Result CurveScalar
  refused = err (value_error "The Python integer given is not under the provided modulus.")

  as_scalar_lem :
      (n : ℕ)
      → ((r : Residue) × (n ≡ r.0) × (as_scalar (an_int (pos n)) ≡ ok (scalar r)))
        ⊎ ((curve.order ≤ n) × (as_scalar (an_int (pos n)) ≡ refused))
  unfolding as_scalar from_int
  as_scalar_lem n = elim (normalized_cases n) [
    | inl (bound, e) ↦ inl ((n, bound), refl, rw (bignum.int_to_bn_pos n, e) refl)
    | inr (bound, e) ↦ inr (bound, rw (bignum.int_to_bn_pos n, e) refl)
  ]

  as_scalar-negative : (n : ℕ) → as_scalar (an_int (negsuc n)) ≡ err overflow_error
  unfolding as_scalar from_int
  as_scalar-negative n = rw (bignum.int_to_bn_negative n) refl

  -- The four operators raise the same exception.
  abbrev pub AllRaise : CurveScalar → ℤ → Error → Type 0
  AllRaise self n raised =
      (mul_operand self (an_int n) ≡ err raised)
      × (add_operand self (an_int n) ≡ err raised)
      × (sub_operand self (an_int n) ≡ err raised)
      × (eq_operand self (an_int n) ≡ err raised)

  operand-AllRaise :
      (self : CurveScalar) (n : ℤ) (raised : Error)
      → as_scalar (an_int n) ≡ err raised
      → AllRaise self n raised
  unfolding mul_operand add_operand sub_operand eq_operand
  operand-AllRaise self n raised e = (rw e refl, rw e refl, rw e refl, rw e refl)

  -- For an int in `[0, order)` the operators `*`, `+` and `-` give the product, the sum and the
  -- difference modulo the order. For a larger int all three and `==` raise a ValueError, and for a
  -- negative int all four raise an OverflowError.
  pub operand_lem :
      (a : Residue) (n : ℤ)
      → ((r : Residue) × (n ≡ pos r.0)
          × (mul_operand (scalar a) (an_int n) ≡ ok (scalar (a ⊗ r)))
          × (add_operand (scalar a) (an_int n) ≡ ok (scalar (a ⊕ r)))
          × (sub_operand (scalar a) (an_int n) ≡ ok (scalar (minus a r))))
        ⊎ ((k : ℕ) × (n ≡ pos k)
            × (curve.order ≤ k)
            × AllRaise
                (scalar a)
                n
                (value_error "The Python integer given is not under the provided modulus."))
        ⊎ ((k : ℕ) × (n ≡ negsuc k) × AllRaise (scalar a) n overflow_error)
  unfolding mul_operand add_operand sub_operand
  operand_lem a (negsuc k) =
      inr (inr (k, refl, operand-AllRaise (scalar a) (negsuc k) _ (as_scalar-negative k)))
  operand_lem a (pos k) = elim (as_scalar_lem k) [
    | inl (r, same, e) ↦
        inl (r, ap pos same, rw e (mul-scalar a r), rw e (add-scalar a r), rw e (sub-scalar a r))
    | inr (bound, e) ↦ inr (inl (k, refl, bound, operand-AllRaise (scalar a) (pos k) _ e))
  ]
