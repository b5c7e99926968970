-- ===== src/Backend/Interface.antt =====
-- The third-party code that the package calls, as operations of a record: OpenSSL through
-- `cryptography` (umbral/openssl.py), HKDF and SHA-256 of `cryptography`, XChaCha20-Poly1305 of
-- `nacl` (umbral/dem.py), and `os.urandom`. `none` is a failing return code or NULL. A source of
-- random numbers is a state that is passed along.
use nucypher_kms_umbral.Prelude.{ℕ, ℤ, Bool, Option, Result}
use nucypher_kms_umbral.Prelude.Bytes.{Bytes}

-- What EC_POINT_oct2point gives: a point, or the reason code of the error.
pub data Octets (P : Type 0) : Type 0 where
  decoded : P → Octets P
  reason : ℕ → Octets P

pub record Backend : Type 1 where
  -- BIGNUMs, with the conversions `backend._int_to_bn`, which may raise, and `backend._bn_to_int`.
  -- `bn_of` is the BIGNUM of a number: the constants `BN_value_one()` and `backend._int_to_bn(0)`.
  pub Bignum : Type 0
  pub bn_of : ℤ → Bignum
  pub int_to_bn : ℤ → Result Bignum
  pub bn_to_int : Bignum → ℤ
  pub bn_cmp : Bignum → Bignum → ℤ
  pub bn_bin2bn : Bytes → Bignum
  pub bn_bn2bin : Bignum → Bytes
  pub bn_num_bytes : Bignum → ℕ
  pub bn_mod : Bignum → Bignum → Option Bignum
  pub bn_add : Bignum → Bignum → Option Bignum
  pub bn_sub : Bignum → Bignum → Option Bignum
  pub bn_mod_add : Bignum → Bignum → Bignum → Option Bignum
  pub bn_mod_sub : Bignum → Bignum → Bignum → Option Bignum
  pub bn_mod_mul : Bignum → Bignum → Bignum → Option Bignum
  pub bn_mod_inverse : Bignum → Bignum → Option Bignum
  -- Randomness.
  pub Rng : Type 0
  pub bn_rand_range : Bignum → Rng → Option (Bignum × Rng)
  pub urandom : ℕ → Rng → Bytes × Rng
  -- Elliptic curves.
  pub Group : Type 0
  pub Point : Type 0
  pub ec_group_new_by_curve_name : ℕ → Option Group
  pub ec_group_get_order : Group → Option Bignum
  pub ec_group_get0_generator : Group → Option Point
  pub ec_group_get_degree : Group → ℕ
  pub ec_point_add : Group → Point → Point → Option Point
  pub ec_point_mul : Group → Point → Bignum → Option Point
  pub ec_point_invert : Group → Point → Option Point
  pub ec_point_cmp : Group → Point → Point → ℤ
  pub ec_point_get_affine_coordinates : Group → Point → Option (Bignum × Bignum)
  pub ec_point_oct2point : Group → Bytes → Octets Point
  pub ec_point_point2oct : Group → Point → ℕ → Option Bytes
  -- Keys and ECDSA over a message that is hashed already; signatures are DER bytes.
  pub PrivateKey : Type 0
  pub PublicKey : Type 0
  pub ec_key_set_private_key : Group → Bignum → Option PrivateKey
  pub ec_key_set_public_key : Group → Point → Option PublicKey
  pub ecdsa_sign : PrivateKey → Bytes → Rng → Option (Bytes × Rng)
  pub ecdsa_verify : PublicKey → Bytes → Bytes → Bool
  pub decode_dss_signature : Bytes → ℤ × ℤ
  pub encode_dss_signature : ℤ → ℤ → Bytes
  -- Python's `hash((cls, bs))` of a class, named, and bytes.
  pub hash_of : Bytes → Bytes → ℤ
  -- SHA-256 as a context that is fed, HKDF over it, and the AEAD.
  pub HashContext : Type 0
  pub hash_new : HashContext
  pub hash_update : HashContext → Bytes → HashContext
  pub hash_finalize : HashContext → Bytes
  pub hkdf_sha256 : ℕ → Option Bytes → Option Bytes → Bytes → Bytes
  pub xchacha_key_size : ℕ
  pub xchacha_nonce_size : ℕ
  pub xchacha_tag_size : ℕ
  pub xchacha_encrypt : Bytes → Bytes → Bytes → Bytes → Bytes
  pub xchacha_decrypt : Bytes → Bytes → Bytes → Bytes → Option Bytes
