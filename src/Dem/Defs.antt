-- ===== src/Dem/Defs.antt =====
-- The function `kdf` and the class `DEM` of umbral/dem.py.
use nucypher_kms_umbral.Prelude.{
  ℕ, Option, none, some, ◌++◌, Result, ok, err, length, take, drop, ltb, value_error, raise_if,
  ◌>>◌,
}
use nucypher_kms_umbral.Prelude.Bytes.{Bytes}
use nucypher_kms_umbral.Backend.Interface.{Backend}
use nucypher_kms_umbral.Backend.Random.{Random, return, ◌>>=◌ as ◌>>=ᵣ◌}

module _ ⦃lib : Backend⦄ where
  unfoldable pub kdf : Bytes → ℕ → Option Bytes → Option Bytes → Bytes
  kdf input key_length salt info = lib.hkdf_sha256 key_length salt info input

  pub record Dem : Type 0 where
    pub key : Bytes

  -- `DEM(key_material, salt, info)`
  unfoldable pub init : Bytes → Option Bytes → Option Bytes → Dem
  unfolding kdf
  init key_material salt info = record { key = kdf key_material lib.xchacha_key_size salt info }

  unfoldable pub encrypt : Dem → Bytes → Bytes → Random Bytes
  encrypt self plaintext authenticated_data =
      (λ rng. ok (lib.urandom lib.xchacha_nonce_size rng)) >>=ᵣ λ nonce.
      let ciphertext = lib.xchacha_encrypt plaintext authenticated_data nonce self.key in
      return (nonce ++ ciphertext)

  -- The `try` turns a CryptoError into a ValueError.
  unfoldable pub open_ciphertext : Option Bytes → Result Bytes
  open_ciphertext none = err (value_error "Decryption of ciphertext failed")
  open_ciphertext (some plaintext) = ok plaintext

  unfoldable pub decrypt : Dem → Bytes → Bytes → Result Bytes
  unfolding open_ciphertext
  decrypt self nonce_and_ciphertext authenticated_data = do
    raise_if (ltb (length nonce_and_ciphertext) lib.xchacha_nonce_size)
        (value_error "The ciphertext must include the nonce")
    let nonce = take lib.xchacha_nonce_size nonce_and_ciphertext
    let ciphertext = drop lib.xchacha_nonce_size nonce_and_ciphertext
    raise_if (ltb (length ciphertext) lib.xchacha_tag_size)
        (value_error "The authentication tag is missing or malformed")
    open_ciphertext (lib.xchacha_decrypt ciphertext authenticated_data nonce self.key)
