-- ===== src/KeyFrag/Generate.antt =====
-- The class `KeyFragBase`, `poly_eval`, and the `from_base` methods of umbral/key_frag.py.
use nucypher_kms_umbral.Prelude.{
  ℕ, zero, suc, ◌-◌, ℤ, pos, pos_part, ltb_ℤ, not, Bool, true, false, some, List, [], ◌∷◌, Result,
  ok, err, out_of_fuel, index_error, value_error, raise_if, ◌>>=◌,
}
use mathlib.Core.List.{reverse}
use nucypher_kms_umbral.Backend.Interface.{Backend}
use nucypher_kms_umbral.Backend.Random.{Random, lift, return, repeat, ◌>>=◌ as ◌>>=ᵣ◌}
use nucypher_kms_umbral.Openssl.Curve.{Curve}
use nucypher_kms_umbral.CurveScalar.Defs as CurveScalar
use nucypher_kms_umbral.CurveScalar.Defs.{CurveScalar}
use nucypher_kms_umbral.CurvePoint.Defs as CurvePoint
use nucypher_kms_umbral.CurvePoint.Defs.{CurvePoint}
use nucypher_kms_umbral.Keys.Defs.{PublicKey, SecretKey}
use nucypher_kms_umbral.Signing.Defs as Signing
use nucypher_kms_umbral.Signing.Defs.{Signer}
use nucypher_kms_umbral.Hashing.Defs.{
  hash_to_shared_secret, hash_to_polynomial_arg, kfrag_signature_message,
}
use nucypher_kms_umbral.Hashing.ToPoint.{Parameters}
use nucypher_kms_umbral.KeyFrag.Id.{KeyFragId, random_id}
use nucypher_kms_umbral.KeyFrag.Defs.{KeyFrag, KeyFragProof, given_if}

module _ ⦃lib : Backend⦄ where
  pub record KeyFragBase : Type 0 where
    pub signer : Signer
    pub precursor : CurvePoint
    pub dh_point : CurvePoint
    pub delegating_pk : PublicKey
    pub receiving_pk : PublicKey
    pub coefficients : List CurveScalar

  -- What one round of the loop in `KeyFragBase.__init__` computes.
  pub record Ephemeral : Type 0 where
    pub precursor : CurvePoint
    pub dh_point : CurvePoint
    pub d : CurveScalar

module _ ⦃lib : Backend⦄ ⦃CURVE : Curve⦄ where
  -- The loop of `poly_eval` over the coefficients that are left, highest first.
  unfoldable pub poly_eval_loop : List CurveScalar → CurveScalar → CurveScalar → Result CurveScalar
  unfolding CurveScalar.mul CurveScalar.add
  poly_eval_loop [] result x = ok result
  poly_eval_loop (coeff ∷ coeffs) result x = do
    product ← CurveScalar.mul result x
    result' ← CurveScalar.add product coeff
    poly_eval_loop coeffs result' x

  -- The loop begins with the last coefficient, `coeffs[-1]`.
  unfoldable pub poly_eval_reversed : List CurveScalar → CurveScalar → Result CurveScalar
  unfolding poly_eval_loop
  poly_eval_reversed [] x = err index_error
  poly_eval_reversed (last ∷ coeffs) x = poly_eval_loop coeffs last x

  unfoldable pub poly_eval : List CurveScalar → CurveScalar → Result CurveScalar
  unfolding poly_eval_reversed
  poly_eval coeffs x = poly_eval_reversed (reverse coeffs) x

  -- The values of one round, from the scalar drawn in it.
  unfoldable pub ephemeral : CurvePoint → CurveScalar → Result Ephemeral
  unfolding CurvePoint.mul CurvePoint.generator hash_to_shared_secret
  ephemeral receiving_pk_point private_precursor = do
    precursor ← CurvePoint.mul CurvePoint.generator private_precursor
    dh_point ← CurvePoint.mul receiving_pk_point private_precursor
    d ← hash_to_shared_secret precursor receiving_pk_point dh_point
    ok (record { precursor = precursor; dh_point = dh_point; d = d })

  unfoldable pub try_ephemeral : CurvePoint → Random (Ephemeral × Bool)
  unfolding CurveScalar.random_nonzero ephemeral CurveScalar.is_zero
  try_ephemeral receiving_pk_point = CurveScalar.random_nonzero >>=ᵣ λ private_precursor.
      lift (ephemeral receiving_pk_point private_precursor) >>=ᵣ λ values.
      lift (CurveScalar.is_zero values.d) >>=ᵣ λ is_zero. return (values, is_zero)

  -- `while True`, with fuel for the rounds.
  unfoldable pub draw_ephemeral : ℕ → CurvePoint → Random Ephemeral
  draw_ephemeral zero receiving_pk_point rng = out_of_fuel
  draw_ephemeral (suc fuel) receiving_pk_point rng = elim (try_ephemeral receiving_pk_point rng) [
    | ok ((values, is_zero), rng') ↦ elim is_zero [
      | true ↦ draw_ephemeral fuel receiving_pk_point rng'
      | false ↦ ok (values, rng')
    ]
    | err e ↦ err e
    | out_of_fuel ↦ out_of_fuel
  ]

  -- The constant coefficient of the generating polynomial.
  unfoldable pub constant_coefficient : SecretKey → CurveScalar → Result CurveScalar
  unfolding CurveScalar.invert CurveScalar.mul
  constant_coefficient delegating_sk d = do
    inverse ← CurveScalar.invert d
    CurveScalar.mul delegating_sk.scalar_key inverse

  -- `KeyFragBase.__init__` once the threshold is accepted.
  unfoldable pub base_with_threshold : ℕ → SecretKey → PublicKey → Signer → ℕ → Random KeyFragBase
  unfolding draw_ephemeral constant_coefficient repeat CurveScalar.random_nonzero
  base_with_threshold fuel delegating_sk receiving_pk signer threshold =
      draw_ephemeral fuel receiving_pk.point_key >>=ᵣ λ values.
      lift (constant_coefficient delegating_sk values.d) >>=ᵣ λ constant.
      repeat (threshold - 1) CurveScalar.random_nonzero >>=ᵣ λ others. return (record {
        signer = signer;
        precursor = values.precursor;
        dh_point = values.dh_point;
        delegating_pk = delegating_sk.public_key;
        receiving_pk = receiving_pk;
        coefficients = constant ∷ others;
      })

  unfoldable pub key_frag_base : ℕ → SecretKey → PublicKey → Signer → ℤ → Random KeyFragBase
  unfolding base_with_threshold
  key_frag_base fuel delegating_sk receiving_pk signer threshold =
      lift
        (raise_if (not (ltb_ℤ (pos 0) threshold)) (value_error "`threshold` must be larger than 0"))
      >>=ᵣ λ _. base_with_threshold fuel delegating_sk receiving_pk signer (pos_part threshold)

  module _ ⦃params : Parameters⦄ where
    -- `KeyFragProof.from_base`
    unfoldable pub proof_from_base :
        KeyFragBase → KeyFragId → CurveScalar → Bool → Bool → Random KeyFragProof
    unfolding CurvePoint.mul kfrag_signature_message Signing.sign
    proof_from_base base kfrag_id kfrag_key sign_delegating_key sign_receiving_key =
        lift (CurvePoint.mul params.u kfrag_key) >>=ᵣ λ commitment.
        lift (
          kfrag_signature_message kfrag_id commitment base.precursor (some base.delegating_pk)
            (some base.receiving_pk))
        >>=ᵣ λ message_for_receiver.
            Signing.sign base.signer message_for_receiver >>=ᵣ λ signature_for_receiver.
            lift (
              kfrag_signature_message kfrag_id commitment base.precursor
                (given_if sign_delegating_key (some base.delegating_pk))
                (given_if sign_receiving_key (some base.receiving_pk)))
            >>=ᵣ λ message_for_proxy.
                Signing.sign base.signer message_for_proxy >>=ᵣ λ signature_for_proxy.
                return (record {
                  commitment = commitment;
                  signature_for_proxy = signature_for_proxy;
                  signature_for_receiver = signature_for_receiver;
                  delegating_key_signed = sign_delegating_key;
                  receiving_key_signed = sign_receiving_key;
                })

    -- The share of the key that belongs to an id.
    unfoldable pub key_share : KeyFragBase → KeyFragId → Result CurveScalar
    unfolding hash_to_polynomial_arg poly_eval
    key_share base kfrag_id = do
      share_index ←
          hash_to_polynomial_arg base.precursor base.receiving_pk.point_key base.dh_point kfrag_id
      poly_eval base.coefficients share_index

    -- `KeyFrag.from_base`
    unfoldable pub kfrag_from_base : KeyFragBase → Bool → Bool → Random KeyFrag
    unfolding random_id key_share proof_from_base
    kfrag_from_base base sign_delegating_key sign_receiving_key = random_id >>=ᵣ λ kfrag_id.
        lift (key_share base kfrag_id) >>=ᵣ λ rk.
        proof_from_base base kfrag_id rk sign_delegating_key sign_receiving_key >>=ᵣ λ proof.
        return (record { id = kfrag_id; key = rk; precursor = base.precursor; proof = proof })
