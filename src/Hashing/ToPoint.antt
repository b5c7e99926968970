-- ===== src/Hashing/ToPoint.antt =====
-- `unsafe_hash_to_point` of umbral/hashing.py, and the parameters of umbral/params.py.
use nucypher_kms_umbral.Prelude.{
  ℕ, zero, suc, ◌+◌, ◌^◌, Bool, true, false, some, [], ◌∷◌, ◌++◌, Result, ok, err, length, take,
  value_error, invalid_compressed_point, ◌>>=◌,
}
use nucypher_kms_umbral.Prelude.Bytes.{Bytes, b, to_bytes}
use nucypher_kms_umbral.Backend.Interface.{Backend}
use nucypher_kms_umbral.Openssl.Curve.{Curve}
use nucypher_kms_umbral.CurvePoint.Defs.{CurvePoint, point_serial}
use nucypher_kms_umbral.Serializable.Defs.{from_bytes}
use nucypher_kms_umbral.Hash

-- Whether `except ErrorInvalidCompressedPoint` catches the outcome.
unfoldable pub is_retried : {A : Type 0} → Result A → Bool
is_retried (err invalid_compressed_point) = true
is_retried _ = false

module _ ⦃lib : Backend⦄ ⦃CURVE : Curve⦄ where
  -- The body of the loop for the counter `i`, up to the `try`.
  unfoldable pub try_point : Bytes → Bytes → ℕ → Result CurvePoint
  unfolding Hash.init Hash.update Hash.finalize from_bytes point_serial
  try_point dst data_with_len i = do
    ibytes ← to_bytes i 4
    digest ← Hash.init (some dst)
    let digest' = Hash.update digest (data_with_len ++ ibytes)
    let point_data = take CURVE.field_element_size (Hash.finalize digest')
    from_bytes point_serial ((2 ∷ []) ++ point_data)

  -- `rounds` are the values of `i` that are left.
  unfoldable pub hash_to_point_loop : ℕ → Bytes → Bytes → ℕ → Result CurvePoint
  hash_to_point_loop zero dst data_with_len i =
      err (value_error "Could not hash input into the curve")
  hash_to_point_loop (suc rounds) dst data_with_len i =
      let outcome = try_point dst data_with_len i in
      elim (is_retried outcome) [
        | true ↦ hash_to_point_loop rounds dst data_with_len (i + 1)
        | false ↦ outcome
      ]

  unfoldable pub unsafe_hash_to_point : Bytes → Bytes → Result CurvePoint
  unfolding to_bytes hash_to_point_loop
  unsafe_hash_to_point dst input = do
    len_data ← to_bytes (length input) 4
    hash_to_point_loop (2 ^ 32) dst (len_data ++ input) 0

  pub record Parameters : Type 0 where
    pub u : CurvePoint

  -- `Parameters()`
  unfoldable pub parameters : Result Parameters
  parameters = do u ← unsafe_hash_to_point (b "PARAMETERS") (b "POINT_U"); ok (record { u = u })
