-- ===== src/Dem/RoundTrip.antt =====
-- What `DEM.encrypt` seals, `DEM.decrypt` opens; and what it refuses.
use nucypher_kms_umbral.Prelude.{
  ◌⊎◌, inl, inr, Bool-cases, String, Option, some, take, ◌+◌, length-drop, ℕ, ◌≤◌, ◌≡◌, refl, none,
  ok, err, ◌++◌, drop, length, length-append, take-append, drop-append, ltb, value_error, arith,
  false,
}
use nucypher_kms_umbral.Prelude.Bytes.{Bytes}
use nucypher_kms_umbral.Backend.Interface.{Backend}
use nucypher_kms_umbral.Backend.Laws.{AeadLaws, RandomLaws}
use nucypher_kms_umbral.Dem.Defs.{Dem, init, encrypt, decrypt, kdf, open_ciphertext}

not_ltb : (a c : ℕ) → c ≤ a → ltb a c ≡ false
not_ltb a c h = ground arith

module _ ⦃lib : Backend⦄ where
  -- For every key, ciphertext and associated data, `decrypt` either gives a plaintext, and the
  -- ciphertext is at least as long as the nonce and the tag together, or raises a ValueError.
  pub decrypt_total :
      (dem : Dem) (sealed ad : Bytes)
      → ((lib.xchacha_nonce_size + lib.xchacha_tag_size ≤ length sealed)
          × ((plaintext : Bytes) × (decrypt dem sealed ad ≡ ok plaintext)))
        ⊎ ((message : String) × (decrypt dem sealed ad ≡ err (value_error message)))
  unfolding decrypt open_ciphertext
  decrypt_total dem sealed ad = elim (Bool-cases (ltb (length sealed) lib.xchacha_nonce_size)) [
    | inl e ↦ inr ("The ciphertext must include the nonce", rw e refl)
    | inr e ↦
        elim (Bool-cases (ltb (length (drop lib.xchacha_nonce_size sealed)) lib.xchacha_tag_size)) [
          | inl e' ↦ inr ("The authentication tag is missing or malformed", rw (e, e') refl)
          | inr e' ↦ opened e e' _ refl
        ]
  ]
    where
      long :
          ltb (length sealed) lib.xchacha_nonce_size ≡ false
          → ltb (length (drop lib.xchacha_nonce_size sealed)) lib.xchacha_tag_size ≡ false
          → lib.xchacha_nonce_size + lib.xchacha_tag_size ≤ length sealed
      long e e' = let rest = length-drop lib.xchacha_nonce_size sealed in ground arith

      opened :
          ltb (length sealed) lib.xchacha_nonce_size ≡ false
          → ltb (length (drop lib.xchacha_nonce_size sealed)) lib.xchacha_tag_size ≡ false
          → (outcome : Option Bytes)
          → lib.xchacha_decrypt
              (drop lib.xchacha_nonce_size sealed)
              ad
              (take lib.xchacha_nonce_size sealed)
              dem.key
            ≡ outcome
          → ((lib.xchacha_nonce_size + lib.xchacha_tag_size ≤ length sealed)
              × ((plaintext : Bytes) × (decrypt dem sealed ad ≡ ok plaintext)))
            ⊎ ((message : String) × (decrypt dem sealed ad ≡ err (value_error message)))
      opened e e' none f = inr ("Decryption of ciphertext failed", rw (e, e', f) refl)
      opened e e' (some plaintext) f = inl (long e e', (plaintext, rw (e, e', f) refl))

  module _ ⦃aead : AeadLaws⦄ where
    open_sealed :
        (nonce plaintext ad material : Bytes)
        → length nonce ≡ lib.xchacha_nonce_size
        → let dem = init material none none in
          decrypt dem (nonce ++ lib.xchacha_encrypt plaintext ad nonce dem.key) ad ≡ ok plaintext
    unfolding decrypt init
    open_sealed nonce plaintext ad material sized = rw (
      not_ltb _ _ long,
      take-append lib.xchacha_nonce_size nonce _ sized,
      drop-append lib.xchacha_nonce_size nonce _ sized,
      not_ltb _ _ tagged,
      aead.decrypt_encrypt plaintext ad nonce _ sized key_sized,
    )
      where
        key : Bytes
        key = kdf material lib.xchacha_key_size none none

        key_sized : length key ≡ lib.xchacha_key_size
        key_sized = unfold kdf in aead.hkdf_length _ none none material

        long : lib.xchacha_nonce_size ≤ length (nonce ++ lib.xchacha_encrypt plaintext ad nonce key)
        long = omega (arith, length-append nonce (lib.xchacha_encrypt plaintext ad nonce key))

        tagged : lib.xchacha_tag_size ≤ length (lib.xchacha_encrypt plaintext ad nonce key)
        tagged = omega (arith, aead.encrypt_length plaintext ad nonce key)

    -- Encryption succeeds, and decryption with the same key material and associated data gives
    -- the plaintext back.
    pub decrypt-encrypt :
        ⦃random : RandomLaws⦄ (material plaintext ad : Bytes) (rng : lib.Rng)
        → (sealed : Bytes) × (rng' : lib.Rng) × (encrypt (init material none none) plaintext ad rng
            ≡ ok (sealed, rng'))
          × (decrypt (init material none none) sealed ad ≡ ok plaintext)
    unfolding encrypt
    decrypt-encrypt ⦃random⦄ material plaintext ad rng =
        let nonce = (lib.urandom lib.xchacha_nonce_size rng).0 in
        (
          nonce ++ lib.xchacha_encrypt plaintext ad nonce (init material none none).key,
          (lib.urandom lib.xchacha_nonce_size rng).1,
          refl,
          open_sealed nonce plaintext ad material (random.urandom_length _ rng),
        )
