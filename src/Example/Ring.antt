-- ===== src/Example/Ring.antt =====
-- The vectors of scalar operations are those of the ring of scalars.
use nucypher_kms_umbral.Prelude.{
  ◌≡◌, refl, [], ◌∷◌, ok, err, map, internal_error, ◌⊎◌, inl, inr, traverse,
}
use nucypher_kms_umbral.Prelude.Bytes.{Bytes, hex}
use nucypher_kms_umbral.Prelude.Residue.{Residue, zero_r, one_r, ◌⊕◌, ◌⊗◌}
use nucypher_kms_umbral.Backend.Interface.{Backend}
use nucypher_kms_umbral.Backend.Laws.{BignumLaws, CurveLaws, EncodingLaws}
use nucypher_kms_umbral.Openssl.Secp256k1.{secp256k1, scalar_modulus}
use nucypher_kms_umbral.CurveScalar.Defs.{scalar_serial}
use nucypher_kms_umbral.CurveScalar.Arithmetic.{
  scalar, minus, minus-⊕, add-scalar, sub-scalar, mul-scalar, invert_lem,
}
use nucypher_kms_umbral.CurveScalar.RoundTrip.{scalar-RoundTrips}
use nucypher_kms_umbral.Example.Operations.{hexlify_scalar, scalar_operations}

module _ ⦃lib : Backend⦄ ⦃bignum : BignumLaws⦄ ⦃curve : CurveLaws⦄ ⦃encoding : EncodingLaws⦄ where
  abbrev pub written : Residue → Bytes
  written a = hex ((scalar-RoundTrips a).encoding)

  hexlify_scalar-scalar : (a : Residue) → hexlify_scalar (scalar a) ≡ ok (written a)
  unfolding hexlify_scalar scalar_serial
  hexlify_scalar-scalar a = rw ((scalar-RoundTrips a).written) refl

  -- For scalars `a` and `c`, if `a` is not zero the four results are written in hexadecimal, as
  -- `a + c`, the `d` with `d + c = a`, `a * c` and the `i` with `i * a = 1`, all modulo the order.
  -- If `a` is zero the run ends with OpenSSL's error.
  pub scalar_operations_lem :
      (a c : Residue)
      → ((d i : Residue) × (d ⊕ c ≡ a)
          × (i ⊗ a ≡ one_r)
          × (scalar_operations (scalar a) (scalar c)
              ≡ ok (map written ((a ⊕ c) ∷ d ∷ (a ⊗ c) ∷ i ∷ []))))
        ⊎ ((a ≡ zero_r) × (scalar_operations (scalar a) (scalar c) ≡ err internal_error))
  unfolding scalar_operations traverse
  scalar_operations_lem a c = elim (invert_lem a) [
    | inl (i, inverts, unit) ↦ inl (
      minus a c,
      i,
      minus-⊕ a c,
      unit,
      rw
          (
            add-scalar a c,
            sub-scalar a c,
            mul-scalar a c,
            inverts,
            hexlify_scalar-scalar (a ⊕ c),
            hexlify_scalar-scalar (minus a c),
            hexlify_scalar-scalar (a ⊗ c),
            hexlify_scalar-scalar i,
          )
          refl,
    )
    | inr (e, fails) ↦ inr (e, rw (add-scalar a c, sub-scalar a c, mul-scalar a c, fails) refl)
  ]
