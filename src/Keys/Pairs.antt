-- ===== src/Keys/Pairs.antt =====
-- Key pairs: the public key of the scalar `a` is `a` times the generator.
use nucypher_kms_umbral.Prelude.{◌≡◌, ◌≢◌, ok}
use nucypher_kms_umbral.Prelude.Residue.{Residue, zero_r}
use nucypher_kms_umbral.Backend.Interface.{Backend}
use nucypher_kms_umbral.Backend.Laws.{BignumLaws, CurveLaws, RandomLaws}
use nucypher_kms_umbral.Backend.Random.{◌>>=◌}
use nucypher_kms_umbral.Openssl.Secp256k1.{secp256k1, scalar_modulus}
use nucypher_kms_umbral.CurveScalar.Arithmetic.{scalar, random_nonzero_lem}
use nucypher_kms_umbral.CurvePoint.Arithmetic.{pt, smul, mul-pt}
use nucypher_kms_umbral.CurvePoint.Defs.{generator}
use nucypher_kms_umbral.Keys.Defs.{PublicKey, SecretKey, secret_key, random_secret_key}

module _ ⦃lib : Backend⦄ ⦃bignum : BignumLaws⦄ ⦃curve : CurveLaws⦄ where
  abbrev pub public_of : Residue → PublicKey
  public_of a = record { point_key = pt (smul a curve.generator) }

  abbrev pub key_of : Residue → SecretKey
  key_of a = record { scalar_key = scalar a; public_key = public_of a }

  pub secret_key-scalar : (a : Residue) → secret_key (scalar a) ≡ ok (key_of a)
  unfolding secret_key generator
  secret_key-scalar a = rw (mul-pt curve.generator a)

  -- `SecretKey.random` gives the key pair of a scalar other than zero.
  pub random_secret_key_lem :
      ⦃random : RandomLaws⦄ (rng : lib.Rng)
      → (a : Residue) × (rng' : lib.Rng) × (random_secret_key rng ≡ ok (key_of a, rng'))
        × (a ≢ zero_r)
  unfolding random_secret_key
  random_secret_key_lem rng =
      let (a, rng', drawn, nonzero) = random_nonzero_lem rng in
      (a, rng', rw (drawn, ◌>>=◌, secret_key-scalar a), nonzero)
