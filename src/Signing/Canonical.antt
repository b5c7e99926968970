-- ===== src/Signing/Canonical.antt =====
-- A signature is written in one way only.
use nucypher_kms_umbral.Prelude.{
  ◌≡◌, ◌<◌, ◌+◌, refl, sym, ap, ◌∙◌, ◌⊎◌, inl, inr, String, ok, err, value_error, Bool-cases,
  length, ltb, ◌==◌, arith,
}
use nucypher_kms_umbral.Prelude.Bytes.{Bytes, IsBytes, be_value, be_value-injective, slice}
use nucypher_kms_umbral.Prelude.Residue.{residue}
use nucypher_kms_umbral.Backend.Interface.{Backend}
use nucypher_kms_umbral.Backend.Laws.{BignumLaws, CurveLaws}
use nucypher_kms_umbral.Openssl.Secp256k1.{secp256k1, scalar_modulus}
use nucypher_kms_umbral.CurveScalar.Defs.{CurveScalar, scalar_serial, serialized_size}
use nucypher_kms_umbral.CurveScalar.Arithmetic.{scalar}
use nucypher_kms_umbral.CurveScalar.RoundTrip.{
  scalar_bytes, to_bytes-scalar, length-scalar_bytes, be_value-scalar_bytes, scalar_bytes-IsBytes,
  from_exact_bytes_lem,
}
use nucypher_kms_umbral.Serializable.Defs.{from_bytes, split, join, split_from}
use nucypher_kms_umbral.Serializable.Canonical.{Canonical, split-join, bind_ok}
use nucypher_kms_umbral.Signing.Defs.{
  Signature, signature_types, signature_serial, signature_bytes, signature_from_exact_bytes,
}
use native.Mathlib.Nat.{mod-eq_of_lt}

module _ ⦃lib : Backend⦄ ⦃bignum : BignumLaws⦄ ⦃curve : CurveLaws⦄ where
  abbrev outside : String
  outside = "The integer encoded with given bytes is not under the provided modulus."

  -- Bytes are read as a scalar, or refused.
  read_cases :
      (bs : Bytes)
      → ((be_value bs < curve.order)
          × (scalar_serial.from_exact_bytes bs ≡ ok (scalar (residue (be_value bs)))))
        ⊎ ((message : String) × (scalar_serial.from_exact_bytes bs ≡ err (value_error message)))
  unfolding scalar_serial
  read_cases bs = elim (Bool-cases (ltb (be_value bs) curve.order)) [
    | inl small ↦ inl (ground arith, from_exact_bytes_lem bs ∙ rw small refl)
    | inr large ↦ inr (outside, from_exact_bytes_lem bs ∙ rw large refl)
  ]

  scalar-Canonical : Canonical scalar_serial
  unfolding scalar_serial residue serialized_size
  scalar-Canonical bs are size s e = elim (read_cases bs) [
    | inr (message, refused) ↦ absurd (cc (e, refused))
    | inl (small, read) ↦
        let same : scalar (residue (be_value bs)) ≡ s = cc (e, read) in
        let value : be_value (scalar_bytes (residue (be_value bs))) ≡ be_value bs =
          be_value-scalar_bytes (residue (be_value bs)) ∙ mod-eq_of_lt small in
        ap (λ (t : CurveScalar). scalar_serial.to_bytes t) (sym same)
        ∙ to_bytes-scalar (residue (be_value bs))
        ∙ ap ok (
            be_value-injective _ bs (scalar_bytes-IsBytes (residue (be_value bs))) are
              (length-scalar_bytes (residue (be_value bs)) ∙ sym size) value)
  ]

  -- A signature is read back as what it was written as.
  signature-Canonical : Canonical signature_serial
  unfolding signature_serial
  signature-Canonical bs are size sig e =
      let (objs, parts, made) = bind_ok (split signature_types bs) _ e in
      let same : record { r = objs.0; s = objs.1.0 } ≡ sig = cc made in
      ap (λ (t : Signature). join signature_types (t.r, (t.s, tt))) (sym same)
      ∙ split-join signature_types (scalar-Canonical, (scalar-Canonical, tt)) bs are size objs parts

  exact_cases :
      (bs : Bytes)
      → ((sig : Signature) × (signature_from_exact_bytes bs ≡ ok sig))
        ⊎ ((message : String) × (signature_from_exact_bytes bs ≡ err (value_error message)))
  unfolding signature_from_exact_bytes split split_from
  exact_cases bs =
      let n = scalar_serial.serialized_size in
      let chunk_r = slice bs 0 (0 + n) in
      let chunk_s = slice bs (0 + n) (0 + n + n) in
      let sig : Signature = record {
        r = scalar (residue (be_value chunk_r));
        s = scalar (residue (be_value chunk_s));
      } in
      elim (read_cases chunk_r) [
        | inr (message, e) ↦ inr (message, rw e refl)
        | inl (_, e) ↦ elim (read_cases chunk_s) [
          | inr (message, e') ↦ inr (message, rw (e, e') refl)
          | inl (_, e') ↦ inl (sig, rw (e, e') refl)
        ]
      ]

  -- Whatever bytes `Signature.from_bytes` is given, it gives a signature that is written as the
  -- same bytes, or raises a ValueError.
  pub from_bytes-signature :
      (bs : Bytes)
      → IsBytes bs
      → ((sig : Signature) × (from_bytes signature_serial bs ≡ ok sig)
          × (signature_bytes sig ≡ ok bs))
        ⊎ ((message : String) × (from_bytes signature_serial bs ≡ err (value_error message)))
  unfolding from_bytes signature_serial signature_bytes
  from_bytes-signature bs are = elim (Bool-cases (length bs == signature_serial.serialized_size)) [
    | inr other ↦ inr ("Wrong number of bytes", rw other refl)
    | inl same ↦ elim (exact_cases bs) [
      | inr (message, e) ↦ inr (message, rw (same, e) refl)
      | inl (sig, e) ↦
          inl (sig, rw (same, e) refl, signature-Canonical bs are (ground (arith, same)) sig e)
    ]
  ]
