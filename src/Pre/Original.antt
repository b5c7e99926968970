-- ===== src/Pre/Original.antt =====
-- Encryption and decryption by the owner of the key.
use nucypher_kms_umbral.Prelude.{◌≡◌, ◌∙◌, ok, none}
use nucypher_kms_umbral.Prelude.Bytes.{Bytes}
use nucypher_kms_umbral.Prelude.Residue.{Residue, ◌⊕◌, ◌⊗◌}
use nucypher_kms_umbral.Backend.Interface.{Backend}
use nucypher_kms_umbral.Backend.Laws.{BignumLaws, CurveLaws, EncodingLaws, RandomLaws, AeadLaws}
use nucypher_kms_umbral.Backend.Random.{return, run_bind, run_lift}
use nucypher_kms_umbral.Openssl.Secp256k1.{secp256k1, scalar_modulus}
use nucypher_kms_umbral.CurvePoint.Defs as CurvePoint
use nucypher_kms_umbral.CurvePoint.Defs.{CurvePoint}
use nucypher_kms_umbral.CurvePoint.Arithmetic.{smul, to_bytes-pt}
use nucypher_kms_umbral.Dem.Defs as Dem
use nucypher_kms_umbral.Dem.RoundTrip.{decrypt-encrypt}
use nucypher_kms_umbral.Keys.Pairs.{public_of, key_of}
use nucypher_kms_umbral.Capsule.Defs.{Capsule, capsule_bytes, from_public_key}
use nucypher_kms_umbral.Capsule.Original.{
  capsule_of, IsCapsuleHash, shared_key, from_public_key-capsule, open_original-capsule_of,
}
use nucypher_kms_umbral.Capsule.RoundTrip.{capsule_bytes-ok}
use nucypher_kms_umbral.Pre.Defs.{encrypt, decrypt_original}

module _ ⦃lib : Backend⦄ ⦃bignum : BignumLaws⦄ ⦃curve : CurveLaws⦄ ⦃encoding : EncodingLaws⦄
    ⦃random : RandomLaws⦄ ⦃aead : AeadLaws⦄ where
  open curve use {generator as g}

  -- A ciphertext that the key of the capsule opens, given the key's and the capsule's bytes.
  pub record Sealed (capsule : Capsule) (seed : Bytes) (plaintext ciphertext : Bytes) : Type 0 where
    pub ad : Bytes
    pub ad_bytes : capsule_bytes capsule ≡ ok ad
    pub opens : Dem.decrypt (Dem.init seed none none) ciphertext ad ≡ ok plaintext

  -- A run of `encrypt`: the capsule's scalars, and a ciphertext under the encapsulated key.
  pub record Encryption (a : Residue) (plaintext : Bytes) (rng : lib.Rng) : Type 0 where
    pub r : Residue
    pub u : Residue
    pub h : Residue
    pub hashed : IsCapsuleHash r u h
    pub seed : Bytes
    pub seed_bytes : CurvePoint.to_bytes (shared_key a r u) ≡ ok seed
    pub ciphertext : Bytes
    pub sealed : Sealed (capsule_of r u h) seed plaintext ciphertext
    pub rng' : lib.Rng
    pub run : encrypt (public_of a) plaintext rng ≡ ok ((capsule_of r u h, ciphertext), rng')

  encrypt_run :
      (a : Residue) (plaintext : Bytes) {capsule : Capsule} {key : CurvePoint}
      {seed ad ciphertext : Bytes} (rng : lib.Rng) {rng₁ rng₂ : lib.Rng}
      → from_public_key (public_of a) rng ≡ ok ((capsule, key), rng₁)
      → CurvePoint.to_bytes key ≡ ok seed
      → capsule_bytes capsule ≡ ok ad
      → Dem.encrypt (Dem.init seed none none) plaintext ad rng₁ ≡ ok (ciphertext, rng₂)
      → encrypt (public_of a) plaintext rng ≡ ok ((capsule, ciphertext), rng₂)
  unfolding encrypt
  encrypt_run a plaintext {capsule} {seed} {ad} rng made seeded associated sealed =
      run_bind (from_public_key (public_of a)) _ made
      ∙ run_lift _ seeded
      ∙ run_lift _ associated
      ∙ run_bind (Dem.encrypt (Dem.init seed none none) plaintext ad) (λ c. return (capsule, c))
          sealed

  -- `encrypt` never fails.
  pub encrypt-ok : (a : Residue) (plaintext : Bytes) (rng : lib.Rng) → Encryption a plaintext rng
  encrypt-ok a plaintext rng =
      let (r, u, h, rng₁, made, hashed) = from_public_key-capsule a rng in
      let (seed, seeded) = to_bytes-pt (shared_key a r u).backend_point in
      let (ad, associated) = capsule_bytes-ok (smul r g) (smul u g) (u ⊕ r ⊗ h) in
      let (ciphertext, rng₂, done, opens) = decrypt-encrypt seed plaintext ad rng₁ in
      record {
        r = r;
        u = u;
        h = h;
        hashed = hashed;
        seed = seed;
        seed_bytes = seeded;
        ciphertext = ciphertext;
        sealed = record { ad = ad; ad_bytes = associated; opens = opens };
        rng' = rng₂;
        run = encrypt_run a plaintext rng made seeded associated done;
      }

  pub decrypt_run :
      (a : Residue) (plaintext : Bytes) (rng : lib.Rng) (e : Encryption a plaintext rng)
      → decrypt_original (key_of a) (capsule_of e.r e.u e.h) e.ciphertext ≡ ok plaintext
  unfolding decrypt_original
  decrypt_run a plaintext rng e =
      rw (open_original-capsule_of a e.r e.u e.h, e.seed_bytes, e.sealed.ad_bytes) e.sealed.opens

  -- For every key pair, plaintext and source of randomness, `encrypt` under the public key
  -- succeeds, and `decrypt_original` with the secret key gives the plaintext back.
  pub decrypt_original-encrypt :
      (a : Residue) (plaintext : Bytes) (rng : lib.Rng)
      → (capsule : Capsule) × (ciphertext : Bytes) × (rng' : lib.Rng) × (encrypt
            (public_of a)
            plaintext
            rng
          ≡ ok ((capsule, ciphertext), rng'))
        × (decrypt_original (key_of a) capsule ciphertext ≡ ok plaintext)
  decrypt_original-encrypt a plaintext rng =
      let e = encrypt-ok a plaintext rng in
      (capsule_of e.r e.u e.h, e.ciphertext, e.rng', e.run, decrypt_run a plaintext rng e)
