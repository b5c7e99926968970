-- ===== src/Pre/Reencrypted.antt =====
-- The delegate decrypts what was encrypted for the owner, from verified fragments.
use nucypher_kms_umbral.Prelude.{◌≤◌, ◌≡◌, ◌≢◌, refl, List, [], ◌∷◌, map, ok, length, traverse}
use nucypher_kms_umbral.Prelude.Bytes.{Bytes}
use nucypher_kms_umbral.Prelude.Residue.{Residue, zero_r}
use nucypher_kms_umbral.Backend.Interface.{Backend}
use nucypher_kms_umbral.Backend.Laws.{BignumLaws, CurveLaws, EncodingLaws, RandomLaws, AeadLaws}
use nucypher_kms_umbral.Openssl.Secp256k1.{secp256k1, scalar_modulus}
use nucypher_kms_umbral.CurveScalar.Arithmetic.{scalar}
use nucypher_kms_umbral.CurvePoint.Arithmetic.{pt, smul}
use nucypher_kms_umbral.Keys.Pairs.{public_of, key_of}
use nucypher_kms_umbral.Hashing.Defs.{hash_to_shared_secret}
use nucypher_kms_umbral.Scheme.Lagrange.{Distinct}
use nucypher_kms_umbral.CapsuleFrag.Defs.{CapsuleFrag}
use nucypher_kms_umbral.Capsule.Original.{capsule_of}
use nucypher_kms_umbral.Capsule.Fragments.{Fragments, open_reencrypted-fragments}
use nucypher_kms_umbral.Pre.Defs.{SomeCapsuleFrag, checked_cfrag, decrypt_reencrypted}
use nucypher_kms_umbral.Pre.Original.{Encryption}

module _ ⦃lib : Backend⦄ ⦃bignum : BignumLaws⦄ ⦃curve : CurveLaws⦄ ⦃encoding : EncodingLaws⦄
    ⦃random : RandomLaws⦄ ⦃aead : AeadLaws⦄ where
  open curve use {generator as g}

  abbrev pub verified_cfrag : CapsuleFrag → SomeCapsuleFrag
  verified_cfrag cfrag = SomeCapsuleFrag.verified (record { cfrag = cfrag })

  traverse-verified :
      (cfrags : List CapsuleFrag) → traverse checked_cfrag (map verified_cfrag cfrags) ≡ ok cfrags
  unfolding traverse checked_cfrag
  traverse-verified [] = refl
  traverse-verified (c ∷ cfrags) = rw (traverse-verified cfrags) refl

  module _ (a d b : Residue) (q : lib.Point) (coeffs : List Residue) (plaintext : Bytes)
      (rng : lib.Rng) (e : Encryption a plaintext rng) where
    -- What was encrypted for the owner `a` is decrypted by the delegate `b`, given verified
    -- fragments of the capsule with distinct indices, at least as many as the threshold. The
    -- scalar `d` is the hash of the secret that `a` shares with `b`, and is not zero.
    pub decrypt_reencrypted-encrypt :
        d ≢ zero_r
        → hash_to_shared_secret (pt q) (pt (smul b g)) (pt (smul b q)) ≡ ok (scalar d)
        → (c : CapsuleFrag) (cfrags : List CapsuleFrag) (x : Residue) (xs : List Residue)
        → Fragments a d e.r e.u b q coeffs (c ∷ cfrags) (x ∷ xs)
        → Distinct (x ∷ xs)
        → length coeffs ≤ length xs
        → decrypt_reencrypted
            (key_of b)
            (public_of a)
            (capsule_of e.r e.u e.h)
            (map verified_cfrag (c ∷ cfrags))
            e.ciphertext
          ≡ ok plaintext
    unfolding decrypt_reencrypted
    decrypt_reencrypted-encrypt nonzero secret c cfrags x xs fragments distinct enough =
        let opened =
          open_reencrypted-fragments a d e.r e.u b q coeffs e.h e.hashed nonzero secret c cfrags x
            xs fragments distinct enough in
        rw (traverse-verified (c ∷ cfrags), opened, e.seed_bytes, e.sealed.ad_bytes) e.sealed.opens
