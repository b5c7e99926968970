-- ===== src/CurveScalar/RoundTrip.antt =====
-- Scalars are written in as many bytes as the order has, and read back; numbers that are not
-- below the order are refused.
use nucypher_kms_umbral.Prelude.{
  if◌then◌else◌, ltb, Bool-cases, inl, inr, ℕ, pos, ◌≡◌, ◌≤◌, ◌<◌, ◌∙◌, true, false, leb, ok, err,
  arith, length, value_error, zero, suc, replicate, All-append,
}
use nucypher_kms_umbral.Prelude.Bytes.{
  Bytes, IsBytes, be_value, rjust_zero, length-rjust_zero, be_value-zeros,
}
use nucypher_kms_umbral.Prelude.Residue.{residue, Residue}
use nucypher_kms_umbral.Backend.Interface.{Backend}
use nucypher_kms_umbral.Backend.Laws.{BignumLaws, CurveLaws}
use nucypher_kms_umbral.Openssl.Bignum.{bn_is_normalized}
use nucypher_kms_umbral.Openssl.Secp256k1.{secp256k1, scalar_modulus}
use nucypher_kms_umbral.Serializable.RoundTrip.{RoundTrips}
use nucypher_kms_umbral.CurveScalar.Defs.{to_bytes, from_exact_bytes, scalar_serial}
use nucypher_kms_umbral.CurveScalar.Arithmetic.{scalar}
use native.Mathlib.Nat.{mod-eq_of_lt}

not_leb : (a c : ℕ) → a ≤ c → leb a c ≡ true
not_leb a c h = ground arith

module _ ⦃lib : Backend⦄ ⦃bignum : BignumLaws⦄ ⦃curve : CurveLaws⦄ where
  normalized :
      (k : ℕ)
      → k < curve.order
      → bn_is_normalized (lib.bn_of (pos k)) (lib.bn_of (pos curve.order)) ≡ true
  unfolding bn_is_normalized
  normalized k h =
      rw (bignum.cmp (pos k) (pos 0), bignum.cmp (pos k) (pos curve.order)) (ground arith)

  unnormalized :
      (k : ℕ)
      → curve.order ≤ k
      → bn_is_normalized (lib.bn_of (pos k)) (lib.bn_of (pos curve.order)) ≡ false
  unfolding bn_is_normalized
  unnormalized k h =
      rw (bignum.cmp (pos k) (pos 0), bignum.cmp (pos k) (pos curve.order)) (ground arith)

  -- The bytes of a scalar, padded with zeros in front.
  pub scalar_bytes : Residue → Bytes
  scalar_bytes a =
      rjust_zero (lib.bn_bn2bin (lib.bn_of (pos a.0)))
        (lib.bn_num_bytes (lib.bn_of (pos curve.order)))

  fits :
      (a : Residue)
      → lib.bn_num_bytes (lib.bn_of (pos a.0)) ≤ lib.bn_num_bytes (lib.bn_of (pos curve.order))
  fits a = bignum.num_bytes_mono a.0 curve.order (let lt : a.0 < curve.order = a.1 in omega arith)

  pub to_bytes-scalar : (a : Residue) → to_bytes (scalar a) ≡ ok (scalar_bytes a)
  unfolding to_bytes scalar_bytes
  to_bytes-scalar a = rw (not_leb _ _ (fits a))

  pub length-scalar_bytes :
      (a : Residue) → length (scalar_bytes a) ≡ lib.bn_num_bytes (lib.bn_of (pos curve.order))
  unfolding scalar_bytes
  length-scalar_bytes a = length-rjust_zero _ _ (rw bignum.bn2bin_length (fits a))

  pub scalar_bytes-IsBytes : (a : Residue) → IsBytes (scalar_bytes a)
  unfolding scalar_bytes
  scalar_bytes-IsBytes a =
      All-append _ (replicate _ 0) (lib.bn_bn2bin (lib.bn_of (pos a.0))) (zeros _)
        (bignum.bn2bin_bytes a.0)
    where
      zeros : (k : ℕ) → IsBytes (replicate k 0)
      zeros zero = tt
      zeros (suc k) = (omega arith, zeros k)

  pub be_value-scalar_bytes : (a : Residue) → be_value (scalar_bytes a) ≡ a.0
  unfolding scalar_bytes
  be_value-scalar_bytes a = be_value-zeros _ _ ∙ bignum.bn2bin_value a.0

  -- Bytes are read as the scalar of the number that they stand for if that is below the order,
  -- and refused with a ValueError if not.
  pub from_exact_bytes_lem :
      (bs : Bytes)
      → from_exact_bytes bs ≡ (
          if ltb (be_value bs) curve.order
          then ok (scalar (residue (be_value bs)))
          else err (
              value_error
                "The integer encoded with given bytes is not under the provided modulus."))
  unfolding from_exact_bytes residue
  from_exact_bytes_lem bs = elim (Bool-cases (ltb (be_value bs) curve.order)) [
    | inl small ↦
        let bound : be_value bs < curve.order = ground arith in
        rw (bignum.bin2bn, normalized (be_value bs) bound, small, mod-eq_of_lt bound)
    | inr large ↦
        let bound : curve.order ≤ be_value bs = ground arith in
        rw (bignum.bin2bn, unnormalized (be_value bs) bound, large)
  ]

  -- Every scalar below the order is written in the size of the order and read back.
  pub scalar-RoundTrips : (a : Residue) → RoundTrips scalar_serial (scalar a)
  unfolding scalar_serial
  scalar-RoundTrips a = record {
    encoding = scalar_bytes a;
    written = to_bytes-scalar a;
    sized = length-scalar_bytes a;
    reread =
        unfold from_exact_bytes in rw (bignum.bin2bn, be_value-scalar_bytes a, normalized a.0 a.1);
  }
