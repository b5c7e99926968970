-- ===== src/Openssl/Ecdsa.antt =====
-- Keys and signatures of umbral/openssl.py.
use nucypher_kms_umbral.Prelude.{ℤ, Bool, Result, ok, openssl_assert, ◌>>=◌}
use nucypher_kms_umbral.Prelude.Bytes.{Bytes}
use nucypher_kms_umbral.Backend.Interface.{Backend}
use nucypher_kms_umbral.Backend.Random.{Random, lift, ◌>>=◌ as ◌>>=ᵣ◌}
use nucypher_kms_umbral.Openssl.Curve.{Curve}

module _ ⦃lib : Backend⦄ where
  unfoldable pub bn_to_privkey : Curve → lib.Bignum → Result lib.PrivateKey
  bn_to_privkey curve bn = openssl_assert (lib.ec_key_set_private_key curve.ec_group bn)

  unfoldable pub point_to_pubkey : Curve → lib.Point → Result lib.PublicKey
  point_to_pubkey curve point = openssl_assert (lib.ec_key_set_public_key curve.ec_group point)

  unfoldable pub ecdsa_sign : Curve → lib.Bignum → Bytes → Random (ℤ × ℤ)
  unfolding bn_to_privkey
  ecdsa_sign curve secret_bn prehashed_message =
      lift (bn_to_privkey curve secret_bn) >>=ᵣ λ private_key.
      (λ rng. openssl_assert (lib.ecdsa_sign private_key prehashed_message rng))
      >>=ᵣ λ signature_der_bytes. lift (ok (lib.decode_dss_signature signature_der_bytes))

  unfoldable pub ecdsa_verify : Curve → ℤ → ℤ → lib.Point → Bytes → Result Bool
  unfolding point_to_pubkey
  ecdsa_verify curve sig_r sig_s public_point prehashed_message = do
    public_key ← point_to_pubkey curve public_point
    let signature_der_bytes = lib.encode_dss_signature sig_r sig_s
    ok (lib.ecdsa_verify public_key signature_der_bytes prehashed_message)
