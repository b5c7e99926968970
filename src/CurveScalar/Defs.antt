-- ===== src/CurveScalar/Defs.antt =====
-- The class `CurveScalar` of umbral/curve_scalar.py.
use nucypher_kms_umbral.Prelude.{
  ℕ, ℤ, pos, ◌==ℤ◌, Bool, none, some, Result, ok, if◌then◌else◌, ◌>>=◌,
}
use nucypher_kms_umbral.Prelude.Bytes.{Bytes}
use nucypher_kms_umbral.Backend.Interface.{Backend}
use nucypher_kms_umbral.Backend.Random.{Random, return, ◌>>=◌ as ◌>>=ᵣ◌}
use nucypher_kms_umbral.Openssl.Bignum.{
  bn_random_nonzero, bn_from_int, bn_from_bytes, bn_to_bytes, bn_to_int, bn_cmp, bn_one, bn_is_zero,
  bn_mul, bn_add, bn_sub, bn_invert,
}
use nucypher_kms_umbral.Openssl.Curve.{Curve}
use nucypher_kms_umbral.Serializable.Defs.{Serial}
use nucypher_kms_umbral.Hash
use nucypher_kms_umbral.Hash.{Hash}

module _ ⦃lib : Backend⦄ where
  pub record CurveScalar : Type 0 where
    pub backend_bignum : lib.Bignum

  -- `cls(e)` for a bignum that may have failed.
  unfoldable pub wrap : Result lib.Bignum → Result CurveScalar
  wrap m = do bn ← m; ok (record { backend_bignum = bn })

  unfoldable pub to_int : CurveScalar → ℤ
  unfolding bn_to_int
  to_int self = bn_to_int self.backend_bignum

  -- `__eq__` between scalars.
  unfoldable pub eq : CurveScalar → CurveScalar → Bool
  unfolding bn_cmp
  eq self other = bn_cmp self.backend_bignum other.backend_bignum ==ℤ pos 0

  unfoldable pub one : CurveScalar
  unfolding bn_one
  one = record { backend_bignum = bn_one }

  unfoldable pub is_zero : CurveScalar → Result Bool
  unfolding bn_is_zero
  is_zero self = bn_is_zero self.backend_bignum

module _ ⦃lib : Backend⦄ ⦃CURVE : Curve⦄ where
  unfoldable pub random_nonzero : Random CurveScalar
  unfolding bn_random_nonzero
  random_nonzero =
      bn_random_nonzero CURVE.bn_order >>=ᵣ λ bn. return (record { backend_bignum = bn })

  unfoldable pub from_int : ℤ → Bool → Result CurveScalar
  unfolding bn_from_int wrap
  from_int num check_normalization =
      let modulus = if check_normalization then some CURVE.bn_order else none in
      wrap (bn_from_int num modulus)

  -- Can produce zero.
  unfoldable pub from_digest : Hash → Result CurveScalar
  unfolding bn_from_bytes wrap Hash.finalize
  from_digest digest = wrap (bn_from_bytes (Hash.finalize digest) none (some CURVE.bn_order))

  unfoldable pub serialized_size : ℕ
  serialized_size = CURVE.scalar_size

  unfoldable pub from_exact_bytes : Bytes → Result CurveScalar
  unfolding bn_from_bytes wrap
  from_exact_bytes bs = wrap (bn_from_bytes bs (some CURVE.bn_order) none)

  unfoldable pub to_bytes : CurveScalar → Result Bytes
  unfolding bn_to_bytes
  to_bytes self = bn_to_bytes self.backend_bignum CURVE.scalar_size

  unfoldable pub mul : CurveScalar → CurveScalar → Result CurveScalar
  unfolding bn_mul wrap
  mul self other = wrap (bn_mul self.backend_bignum other.backend_bignum CURVE.bn_order)

  unfoldable pub add : CurveScalar → CurveScalar → Result CurveScalar
  unfolding bn_add wrap
  add self other = wrap (bn_add self.backend_bignum other.backend_bignum CURVE.bn_order)

  unfoldable pub sub : CurveScalar → CurveScalar → Result CurveScalar
  unfolding bn_sub wrap
  sub self other = wrap (bn_sub self.backend_bignum other.backend_bignum CURVE.bn_order)

  unfoldable pub invert : CurveScalar → Result CurveScalar
  unfolding bn_invert wrap
  invert self = wrap (bn_invert self.backend_bignum CURVE.bn_order)

  unfoldable pub scalar_serial : Serial CurveScalar
  unfolding serialized_size from_exact_bytes to_bytes
  scalar_serial = record {
    serialized_size = serialized_size;
    from_exact_bytes = from_exact_bytes;
    to_bytes = to_bytes;
  }
