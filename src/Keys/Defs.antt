-- ===== src/Keys/Defs.antt =====
-- The classes of umbral/keys.py.
use nucypher_kms_umbral.Prelude.{
  ℤ, ℕ, Bool, none, some, ◌++◌, Result, ok, err, runtime_error, ◌>>=◌,
}
use nucypher_kms_umbral.Prelude.Bytes.{short_str, hidden_str, Bytes, b}
use nucypher_kms_umbral.Backend.Interface.{Backend}
use nucypher_kms_umbral.Backend.Random.{Random, lift, return, ◌>>=◌ as ◌>>=ᵣ◌}
use nucypher_kms_umbral.Openssl.Curve.{Curve}
use nucypher_kms_umbral.CurveScalar.Defs as CurveScalar
use nucypher_kms_umbral.CurveScalar.Defs.{CurveScalar}
use nucypher_kms_umbral.CurvePoint.Defs as CurvePoint
use nucypher_kms_umbral.CurvePoint.Defs.{CurvePoint}
use nucypher_kms_umbral.Serializable.Defs.{Serial}
use nucypher_kms_umbral.Dem.Defs.{kdf}
use nucypher_kms_umbral.Hash

module _ ⦃lib : Backend⦄ where
  pub record PublicKey : Type 0 where
    pub point_key : CurvePoint

  pub record SecretKey : Type 0 where
    pub scalar_key : CurveScalar
    pub public_key : PublicKey

  pub record SecretKeyFactory : Type 0 where
    pub key_seed : Bytes

  -- `SecretKey.__eq__`
  unfoldable pub secret_key_eq : SecretKey → SecretKey → Bool
  unfolding CurveScalar.eq
  secret_key_eq self other = CurveScalar.eq self.scalar_key other.scalar_key

  -- `SecretKey.__str__` and `SecretKeyFactory.__str__`
  unfoldable pub secret_key_str : SecretKey → Bytes
  unfolding hidden_str
  secret_key_str self = hidden_str (b "SecretKey")

  unfoldable pub factory_str : SecretKeyFactory → Bytes
  unfolding hidden_str
  factory_str self = hidden_str (b "SecretKeyFactory")

  -- `SecretKey.__hash__` and `SecretKeyFactory.__hash__`
  unfoldable pub secret_hash : {A : Type 0} → A → Result ℕ
  secret_hash self = err (runtime_error "Hashing secret objects is not secure")

module _ ⦃lib : Backend⦄ ⦃CURVE : Curve⦄ where
  -- `SecretKey(scalar_key)`, which computes the public key.
  unfoldable pub secret_key : CurveScalar → Result SecretKey
  unfolding CurvePoint.mul CurvePoint.generator
  secret_key scalar_key = do
    point ← CurvePoint.mul CurvePoint.generator scalar_key
    ok (record { scalar_key = scalar_key; public_key = record { point_key = point } })

  unfoldable pub random_secret_key : Random SecretKey
  unfolding CurveScalar.random_nonzero secret_key
  random_secret_key = CurveScalar.random_nonzero >>=ᵣ λ scalar. lift (secret_key scalar)

  unfoldable pub secret_key_from_exact_bytes : Bytes → Result SecretKey
  unfolding CurveScalar.from_exact_bytes secret_key
  secret_key_from_exact_bytes bs = do scalar ← CurveScalar.from_exact_bytes bs; secret_key scalar

  unfoldable pub secret_key_serial : Serial SecretKey
  unfolding secret_key_from_exact_bytes CurveScalar.to_bytes CurveScalar.serialized_size
  secret_key_serial = record {
    serialized_size = CurveScalar.serialized_size;
    from_exact_bytes = secret_key_from_exact_bytes;
    to_bytes = λ self. CurveScalar.to_bytes self.scalar_key;
  }

  unfoldable pub public_key_from_exact_bytes : Bytes → Result PublicKey
  unfolding CurvePoint.from_exact_bytes
  public_key_from_exact_bytes bs = do
    point ← CurvePoint.from_exact_bytes bs
    ok (record { point_key = point })

  -- `PublicKey.__bytes__`
  unfoldable pub public_key_bytes : PublicKey → Result Bytes
  unfolding CurvePoint.to_bytes
  public_key_bytes self = CurvePoint.to_bytes self.point_key

  unfoldable pub public_key_serial : Serial PublicKey
  unfolding public_key_from_exact_bytes public_key_bytes CurvePoint.serialized_size
  public_key_serial = record {
    serialized_size = CurvePoint.serialized_size;
    from_exact_bytes = public_key_from_exact_bytes;
    to_bytes = public_key_bytes;
  }

  -- `PublicKey.__str__`
  unfoldable pub public_key_str : PublicKey → Result Bytes
  unfolding public_key_bytes short_str
  public_key_str self = do bs ← public_key_bytes self; ok (short_str (b "PublicKey") bs)

  -- `PublicKey.__hash__`
  unfoldable pub public_key_hash : PublicKey → Result ℤ
  unfolding public_key_bytes
  public_key_hash self = do bs ← public_key_bytes self; ok (lib.hash_of (b "PublicKey") bs)

  -- `PublicKey.__eq__`
  unfoldable pub public_key_eq : PublicKey → PublicKey → Result Bool
  unfolding CurvePoint.eq
  public_key_eq self other = CurvePoint.eq self.point_key other.point_key

  abbrev pub key_seed_size : ℕ
  key_seed_size = 64

  abbrev pub derived_key_size : ℕ
  derived_key_size = 64

  -- `SecretKeyFactory.random`
  unfoldable pub random_factory : Random SecretKeyFactory
  random_factory =
      (λ rng. ok (lib.urandom key_seed_size rng)) >>=ᵣ λ seed. return (record { key_seed = seed })

  unfoldable pub secret_key_by_label : SecretKeyFactory → Bytes → Result SecretKey
  unfolding kdf Hash.init Hash.update CurveScalar.from_digest secret_key
  secret_key_by_label self label = do
    let tag = b "KEY_DERIVATION/" ++ label
    let key = kdf self.key_seed derived_key_size none (some tag)
    digest ← Hash.init (some tag)
    let digest' = Hash.update digest key
    scalar_key ← CurveScalar.from_digest digest'
    secret_key scalar_key

  unfoldable pub factory_serial : Serial SecretKeyFactory
  factory_serial = record {
    serialized_size = key_seed_size;
    from_exact_bytes = λ bs. ok (record { key_seed = bs });
    to_bytes = λ self. ok self.key_seed;
  }
