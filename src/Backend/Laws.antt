-- ===== src/Backend/Laws.antt =====
-- The documented behaviour of the third-party code that theorems rely on, as named hypotheses.
use nucypher_kms_umbral.Prelude.{
  ℕ, suc, ◌+◌, ◌-◌, ◌*◌, ◌/◌, ◌%◌, ◌≤◌, ◌<◌, ◌≡◌, ◌≢◌, ◌⊎◌, ℤ, pos, negsuc, ok, err, overflow_error,
  cmp_ℤ, ◌-ℤ◌, true, Option, none, some, [], ◌∷◌, length,
}
use nucypher_kms_umbral.Prelude.Bytes.{Bytes, IsBytes, be_value}
use nucypher_kms_umbral.Backend.Interface.{Backend, decoded}

-- BIGNUMs are integers; the modular operations reduce into [0, modulus). The conversion of an int
-- goes by `int.to_bytes`, which raises OverflowError on a negative number.
pub record BignumLaws ⦃lib : Backend⦄ : Type 0 where
  pub int_of_bn : (z : ℤ) → lib.bn_to_int (lib.bn_of z) ≡ z
  pub bn_of_int : (a : lib.Bignum) → lib.bn_of (lib.bn_to_int a) ≡ a
  pub int_to_bn_pos : (k : ℕ) → lib.int_to_bn (pos k) ≡ ok (lib.bn_of (pos k))
  pub int_to_bn_negative : (k : ℕ) → lib.int_to_bn (negsuc k) ≡ err overflow_error
  pub cmp : (x y : ℤ) → lib.bn_cmp (lib.bn_of x) (lib.bn_of y) ≡ cmp_ℤ x y
  pub bin2bn : (bs : Bytes) → lib.bn_bin2bn bs ≡ lib.bn_of (pos (be_value bs))
  -- The bytes of a number.
  pub bn2bin_value : (k : ℕ) → be_value (lib.bn_bn2bin (lib.bn_of (pos k))) ≡ k
  pub bn2bin_bytes : (k : ℕ) → IsBytes (lib.bn_bn2bin (lib.bn_of (pos k)))
  pub bn2bin_length :
      (k : ℕ) → length (lib.bn_bn2bin (lib.bn_of (pos k))) ≡ lib.bn_num_bytes (lib.bn_of (pos k))
  pub num_bytes_mono :
      (j k : ℕ)
      → j ≤ k
      → lib.bn_num_bytes (lib.bn_of (pos j)) ≤ lib.bn_num_bytes (lib.bn_of (pos k))
  pub reduce :
      (a k : ℕ)
      → 0 < k
      → lib.bn_mod (lib.bn_of (pos a)) (lib.bn_of (pos k)) ≡ some (lib.bn_of (pos (a % k)))
  pub sub : (x y : ℤ) → lib.bn_sub (lib.bn_of x) (lib.bn_of y) ≡ some (lib.bn_of (x -ℤ y))
  pub add :
      (a c : ℕ)
      → lib.bn_add (lib.bn_of (pos a)) (lib.bn_of (pos c)) ≡ some (lib.bn_of (pos (a + c)))
  pub mod_add :
      (a c k : ℕ)
      → 0 < k
      → lib.bn_mod_add (lib.bn_of (pos a)) (lib.bn_of (pos c)) (lib.bn_of (pos k))
        ≡ some (lib.bn_of (pos ((a + c) % k)))
  pub mod_sub :
      (a c k : ℕ)
      → 0 < k
      → lib.bn_mod_sub (lib.bn_of (pos a)) (lib.bn_of (pos c)) (lib.bn_of (pos k))
        ≡ some (lib.bn_of (pos ((a + (k - c % k)) % k)))
  pub mod_mul :
      (a c k : ℕ)
      → 0 < k
      → lib.bn_mod_mul (lib.bn_of (pos a)) (lib.bn_of (pos c)) (lib.bn_of (pos k))
        ≡ some (lib.bn_of (pos (a * c % k)))
  -- An inverse is found where there is one, and NULL is returned where there is none.
  pub mod_inverse :
      (a c k : ℕ)
      → 0 < k
      → a * c % k ≡ 1 % k
      → (i : ℕ) × (lib.bn_mod_inverse (lib.bn_of (pos a)) (lib.bn_of (pos k))
          ≡ some (lib.bn_of (pos i)))
        × (i < k)
        × (a * i % k ≡ 1 % k)
  pub mod_inverse_none :
      (a k : ℕ)
      → ((c : ℕ) → a * c % k ≢ 1 % k)
      → lib.bn_mod_inverse (lib.bn_of (pos a)) (lib.bn_of (pos k)) ≡ none

-- BN_rand_range draws from [0, range); `os.urandom` gives as many bytes as asked for.
pub record RandomLaws ⦃lib : Backend⦄ : Type 0 where
  pub rand_range :
      (k : ℕ) (rng : lib.Rng)
      → 0 < k
      → (j : ℕ) × (rng' : lib.Rng) × (lib.bn_rand_range (lib.bn_of (pos k)) rng
          ≡ some (lib.bn_of (pos j), rng'))
        × (j < k)
  pub urandom_length : (k : ℕ) (rng : lib.Rng) → length (lib.urandom k rng).0 ≡ k
  pub urandom_bytes : (k : ℕ) (rng : lib.Rng) → IsBytes (lib.urandom k rng).0

-- secp256k1 (nid 714): a group of prime order in which every operation succeeds. The field's
-- elements have `degree` bits.
pub record CurveLaws ⦃lib : Backend⦄ : Type 0 where
  pub group : lib.Group
  pub by_name : lib.ec_group_new_by_curve_name 714 ≡ some group
  pub order : ℕ
  pub order_large : 2 < order
  pub get_order : lib.ec_group_get_order group ≡ some (lib.bn_of (pos order))
  pub order_prime : (a : ℕ) → a % order ≢ 0 → (c : ℕ) × (a * c % order ≡ 1)
  pub generator : lib.Point
  pub get_generator : lib.ec_group_get0_generator group ≡ some generator
  pub plus : lib.Point → lib.Point → lib.Point
  pub identity : lib.Point
  pub negate : lib.Point → lib.Point
  pub times : ℕ → lib.Point → lib.Point
  pub plus_assoc : (p q r : lib.Point) → plus (plus p q) r ≡ plus p (plus q r)
  pub plus_comm : (p q : lib.Point) → plus p q ≡ plus q p
  pub plus_identity : (p : lib.Point) → plus identity p ≡ p
  pub plus_negate : (p : lib.Point) → plus p (negate p) ≡ identity
  pub generator_ne : generator ≢ identity
  pub times_zero : (p : lib.Point) → times 0 p ≡ identity
  pub times_suc : (k : ℕ) (p : lib.Point) → times (suc k) p ≡ plus p (times k p)
  pub times_order : (p : lib.Point) → times order p ≡ identity
  pub add : (p q : lib.Point) → lib.ec_point_add group p q ≡ some (plus p q)
  pub mul :
      (p : lib.Point) (k : ℕ) → lib.ec_point_mul group p (lib.bn_of (pos k)) ≡ some (times k p)
  pub invert : (p : lib.Point) → lib.ec_point_invert group p ≡ some (negate p)
  pub cmp :
      (p q : lib.Point)
      → (lib.ec_point_cmp group p q ≡ pos 0) × (p ≡ q)
        ⊎ (lib.ec_point_cmp group p q ≡ pos 1) × (p ≢ q)

-- A compressed point has `degree` bits rounded up to bytes, and one byte more. The identity is
-- written as one zero byte.
pub record EncodingLaws ⦃lib : Backend⦄ ⦃curve : CurveLaws⦄ : Type 0 where
  pub size : ℕ
  pub size_of_degree : size ≡ (lib.ec_group_get_degree curve.group + 7) / 8 + 1
  pub point2oct :
      (p : lib.Point)
      → p ≢ curve.identity
      → (bs : Bytes) × (lib.ec_point_point2oct curve.group p size ≡ some bs)
        × (length bs ≡ size)
        × (lib.ec_point_oct2point curve.group bs ≡ decoded p)
  pub point2oct_identity : lib.ec_point_point2oct curve.group curve.identity size ≡ some (0 ∷ [])

-- ECDSA: a key in [1, order) signs, the signature verifies under its public key, and so does the
-- signature with `order - s` in place of `s`.
pub record EcdsaLaws ⦃lib : Backend⦄ ⦃curve : CurveLaws⦄ : Type 0 where
  pub private_key : ℕ → lib.PrivateKey
  pub set_private_key :
      (k : ℕ)
      → 0 < k
      → k < curve.order
      → lib.ec_key_set_private_key curve.group (lib.bn_of (pos k)) ≡ some (private_key k)
  pub public_key : lib.Point → lib.PublicKey
  pub set_public_key :
      (p : lib.Point)
      → p ≢ curve.identity
      → lib.ec_key_set_public_key curve.group p ≡ some (public_key p)
  pub decode_encode : (r s : ℤ) → lib.decode_dss_signature (lib.encode_dss_signature r s) ≡ (r, s)
  pub sign :
      (k : ℕ) (digest : Bytes) (rng : lib.Rng)
      → 0 < k
      → k < curve.order
      → (r : ℕ) × (s : ℕ) × (rng' : lib.Rng) × (lib.ecdsa_sign (private_key k) digest rng
          ≡ some (lib.encode_dss_signature (pos r) (pos s), rng'))
        × ((0 < r) × (r < curve.order) × (0 < s) × (s < curve.order))
        × (lib.ecdsa_verify
              (public_key (curve.times k curve.generator))
              (lib.encode_dss_signature (pos r) (pos s))
              digest
            ≡ true)
  pub verify_opposite :
      (key : lib.PublicKey) (r s : ℕ) (digest : Bytes)
      → 0 < s
      → s < curve.order
      → lib.ecdsa_verify key (lib.encode_dss_signature (pos r) (pos (curve.order - s))) digest
        ≡ lib.ecdsa_verify key (lib.encode_dss_signature (pos r) (pos s)) digest

-- The AEAD opens what it sealed under the same key, nonce and associated data.
pub record AeadLaws ⦃lib : Backend⦄ : Type 0 where
  pub hkdf_length :
      (k : ℕ) (salt info : Option Bytes) (input : Bytes)
      → length (lib.hkdf_sha256 k salt info input) ≡ k
  pub encrypt_length :
      (plaintext ad nonce key : Bytes)
      → length (lib.xchacha_encrypt plaintext ad nonce key)
        ≡ length plaintext + lib.xchacha_tag_size
  pub decrypt_encrypt :
      (plaintext ad nonce key : Bytes)
      → length nonce ≡ lib.xchacha_nonce_size
      → length key ≡ lib.xchacha_key_size
      → lib.xchacha_decrypt (lib.xchacha_encrypt plaintext ad nonce key) ad nonce key
        ≡ some plaintext
