-- ===== src/Example/Run.antt =====
-- What the script prints.
use nucypher_kms_umbral.Prelude.{
  ℕ, suc, ◌≡◌, ◌≢◌, refl, sym, ap, ap₂, ◌∙◌, ◌⊎◌, inl, inr, true, none, String, List, [], ◌∷◌, ◌++◌,
  length, pos, ok, err, value_error, All,
}
use nucypher_kms_umbral.Prelude.Bytes.{Bytes, b}
use nucypher_kms_umbral.Prelude.Residue.{Residue, zero_r, ◌⊕◌, ◌⊗◌}
use nucypher_kms_umbral.Backend.Interface.{Backend}
use nucypher_kms_umbral.Backend.Laws.{
  BignumLaws, CurveLaws, EncodingLaws, RandomLaws, EcdsaLaws, AeadLaws,
}
use nucypher_kms_umbral.Backend.Random.{Random, for_each, run_bind, run_lift}
use nucypher_kms_umbral.Openssl.Secp256k1.{secp256k1, scalar_modulus}
use nucypher_kms_umbral.CurvePoint.Arithmetic.{smul, to_bytes-pt}
use nucypher_kms_umbral.Keys.Defs.{SecretKey, random_secret_key}
use nucypher_kms_umbral.Keys.Pairs.{public_of, key_of, random_secret_key_lem}
use nucypher_kms_umbral.Hashing.ToPoint.{Parameters}
use nucypher_kms_umbral.Dem.Defs as Dem
use nucypher_kms_umbral.Dem.RoundTrip.{decrypt_total}
use nucypher_kms_umbral.Capsule.Defs.{Capsule}
use nucypher_kms_umbral.Capsule.Original.{capsule_of, shared_key, open_original-capsule_of}
use nucypher_kms_umbral.Capsule.RoundTrip.{capsule_bytes-ok}
use nucypher_kms_umbral.Capsule.Fragments.{scalar_injective}
use nucypher_kms_umbral.KeyFrag.Defs.{VerifiedKeyFrag}
use nucypher_kms_umbral.CapsuleFrag.Defs.{VerifiedCapsuleFrag}
use nucypher_kms_umbral.Pre.Defs.{
  SomeKeyFrag, encrypt, decrypt_original, generate_kfrags, reencrypt,
}
use nucypher_kms_umbral.Pre.Original.{encrypt-ok, decrypt_run}
use nucypher_kms_umbral.Pre.Shares.{Among, DistinctIndices}
use nucypher_kms_umbral.Example.Script.{attempt, on_value_error, grant, run}
use nucypher_kms_umbral.Example.Reread.{NoIdentity}
use nucypher_kms_umbral.Example.Granted.{grant_run}

module _ ⦃lib : Backend⦄ ⦃bignum : BignumLaws⦄ ⦃curve : CurveLaws⦄ ⦃encoding : EncodingLaws⦄
    ⦃random : RandomLaws⦄ ⦃aead : AeadLaws⦄ where
  open curve use {generator as g}

  -- Nothing, or the message on a failed decryption.
  abbrev pub IsAttempt : List Bytes → Type 0
  IsAttempt printed =
      (printed ≡ []) ⊎ (printed ≡ b "Decryption failed! Bob doesn't has access granted yet." ∷ [])

  decrypt_original_total :
      (r u h c : Residue) (ciphertext : Bytes)
      → ((plaintext : Bytes) × (decrypt_original (key_of c) (capsule_of r u h) ciphertext
            ≡ ok plaintext))
        ⊎ ((message : String) × (decrypt_original (key_of c) (capsule_of r u h) ciphertext
              ≡ err (value_error message)))
  unfolding decrypt_original
  decrypt_original_total r u h c ciphertext =
      let (seed, seeded) = to_bytes-pt (shared_key c r u).backend_point in
      let (ad, associated) = capsule_bytes-ok (smul r g) (smul u g) (u ⊕ r ⊗ h) in
      elim (decrypt_total (Dem.init seed none none) ciphertext ad) [
        | inl (long, (plaintext, e)) ↦
            inl (plaintext, rw (open_original-capsule_of c r u h, seeded, associated) e)
        | inr (message, e) ↦
            inr (message, rw (open_original-capsule_of c r u h, seeded, associated) e)
      ]

  attempt_total :
      (r u h c : Residue) (ciphertext : Bytes)
      → (printed : List Bytes) × (attempt (key_of c) (capsule_of r u h) ciphertext ≡ ok printed)
        × IsAttempt printed
  unfolding attempt on_value_error
  attempt_total r u h c ciphertext = elim (decrypt_original_total r u h c ciphertext) [
    | inl (plaintext, e) ↦ ([], rw (attempt, e) refl, inl refl)
    | inr (message, e) ↦ (_, rw (attempt, e) refl, inr refl)
  ]

  module _ ⦃ecdsa : EcdsaLaws⦄ ⦃params : Parameters⦄ where
    secret_key_ne :
        (s : Residue) (rng rng' : lib.Rng)
        → random_secret_key rng ≡ ok (key_of s, rng')
        → s ≢ zero_r
    secret_key_ne s rng rng' drawn zero =
        let (s', rng'', drawn', nonzero) = random_secret_key_lem rng in
        let keys : key_of s' ≡ key_of s = cc (drawn, drawn') in
        nonzero (scalar_injective s' s (ap (λ (k : SecretKey). k.scalar_key) keys) ∙ zero)

    -- Let the script draw the keys of Alice, of her signer and of Bob, and let `sample` choose as
    -- many different fragments of those that `generate_kfrags` returns as the threshold, whose
    -- indices are pairwise different, and let no point of the proxies' answers be the identity.
    -- Then the script passes its two assertions and prints the ciphertext, the plaintext as Alice
    -- decrypts it, possibly the message that Bob's first attempt failed, and the plaintext as Bob
    -- decrypts it.
    pub run_lem :
        (sample : List VerifiedKeyFrag → ℕ → Random (List VerifiedKeyFrag)) (a s b' : Residue)
        (n m fuel : ℕ) (plaintext : Bytes) (rng rng' rng₀ rng₁ rng₂ rng₃ rng₄ rng₅ : lib.Rng)
        (capsule : Capsule) (ciphertext : Bytes) (all_kfrags kfrags : List VerifiedKeyFrag)
        (cfrags : List VerifiedCapsuleFrag)
        → random_secret_key rng ≡ ok (key_of a, rng')
        → random_secret_key rng' ≡ ok (key_of s, rng₀)
        → encrypt (public_of a) plaintext rng₀ ≡ ok ((capsule, ciphertext), rng₁)
        → random_secret_key rng₁ ≡ ok (key_of b', rng₂)
        → generate_kfrags fuel
            (key_of a)
            (public_of b')
            (record { secret_key = key_of s })
            (pos (suc n))
            (pos m)
            true
            true
            rng₂
          ≡ ok (all_kfrags, rng₃)
        → sample all_kfrags (suc n) rng₃ ≡ ok (kfrags, rng₄)
        → All (λ k. Among k all_kfrags) kfrags
        → DistinctIndices b' kfrags
        → length kfrags ≡ suc n
        → for_each (λ k. reencrypt capsule (SomeKeyFrag.verified k)) kfrags rng₄ ≡ ok (cfrags, rng₅)
        → All (λ (cfrag : VerifiedCapsuleFrag). NoIdentity cfrag.cfrag) cfrags
        → (failed : List Bytes) × IsAttempt failed
          × (run sample fuel (suc n) m plaintext rng
              ≡ ok (ciphertext ∷ plaintext ∷ (failed ++ (plaintext ∷ [])), rng₅))
    unfolding run
    run_lem sample a s b' n m fuel plaintext rng rng' rng₀ rng₁ rng₂ rng₃ rng₄ rng₅ capsule
          ciphertext all_kfrags kfrags cfrags alice signer encrypted bob generated sampled among
          distinct size answered regular =
        let e = encrypt-ok a plaintext rng₀ in
        let same_capsule : capsule_of e.r e.u e.h ≡ capsule = cc (e.run, encrypted) in
        let same_ciphertext : e.ciphertext ≡ ciphertext = cc (e.run, encrypted) in
        let (failed, attempted, shape) = attempt_total e.r e.u e.h b' ciphertext in
        let decrypted : decrypt_original (key_of a) capsule ciphertext ≡ ok plaintext =
          ap₂ (decrypt_original (key_of a)) (sym same_capsule) (sym same_ciphertext)
          ∙ decrypt_run a plaintext rng₀ e in
        let attempted' : attempt (key_of b') capsule ciphertext ≡ ok failed =
          ap (λ c. attempt (key_of b') c ciphertext) (sym same_capsule) ∙ attempted in
        (
          failed,
          shape,
          run_bind random_secret_key _ alice
              ∙ run_bind random_secret_key _ signer
              ∙ run_bind (encrypt (public_of a) plaintext) _ encrypted
              ∙ run_lift _ decrypted
              ∙ run_bind random_secret_key _ bob
              ∙ run_lift _ attempted'
              ∙ run_bind
                  (grant sample fuel (suc n) m plaintext (key_of a) (key_of s) (key_of b') capsule
                    ciphertext)
                  _
                  (grant_run sample a b' s n m fuel (secret_key_ne s rng' rng₀ signer) plaintext
                    rng₀ rng₁ rng₂ rng₃ rng₄ rng₅ capsule ciphertext all_kfrags kfrags cfrags
                    encrypted generated sampled among distinct size answered regular),
        )
